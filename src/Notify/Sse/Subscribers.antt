-- ===== src/Notify/Sse/Subscribers.antt =====
-- Who listens to which sender: `sse_handler` (notify_server/src/sse.rs).
use chat.Base.{
  ℕ, ◌≡◌, ◌≢◌, refl, sym, ◌∙◌, ap, as_u64, Option, none, some, [], ◌∷◌, arith, ◌==◌, ==_iff,
  Bool-cases, inl, inr,
}
use mathlib.Core.Option.{some-injective}
use chat.Core.{User}
use chat.Notify.Sse.{UserMap, get, insert, enter, sse_handler}

get-insert_same : (u tx : ℕ) (users : UserMap) → get u (insert u tx users) ≡ some tx
unfolding get insert
get-insert_same u tx [] = ground arith
get-insert_same u tx ((v, s) ∷ users) = ground (arith, get-insert_same u tx users)

get-insert_other : (u v tx : ℕ) (users : UserMap) → v ≢ u → get v (insert u tx users) ≡ get v users
unfolding get insert
get-insert_other u v tx [] n = ground arith
get-insert_other u v tx ((x, s) ∷ users) n = ground (arith, get-insert_other u v tx users n)

-- the handler's user has the sender that it listens to, and the other users have theirs
abbrev pub IsEntered : ℕ → UserMap → ℕ × UserMap → Type 0
IsEntered u users (tx, users') =
    (get u users' ≡ some tx) × ((v : ℕ) → v ≢ u → get v users' ≡ get v users)

-- A handler that runs by itself listens to the sender that the map then has for its user, and the
-- senders of all other users stay as they are.
pub sse_handler-IsEntered :
    (user : User) (fresh : ℕ) (users : UserMap)
    → IsEntered (as_u64 user.id) users (sse_handler user fresh users)
unfolding sse_handler enter
sse_handler-IsEntered user fresh users = seen _ refl
  where
    seen :
        (o : Option ℕ)
        → get (as_u64 user.id) users ≡ o
        → IsEntered (as_u64 user.id) users (enter (as_u64 user.id) fresh o users)
    seen (some tx) e = (e, λ v n. refl)
    seen none e = (get-insert_same _ fresh users, λ v n. get-insert_other _ v fresh users n)

-- When two handlers of one user have both looked before either inserted its new sender, the map
-- ends with the second one's sender for the user, and with the first one's for nobody.
pub enter-race :
    (u first second : ℕ) (users : UserMap)
    → first ≢ second
    → ((v : ℕ) → get v users ≢ some first)
    → (get u (enter u second none (enter u first none users).1).1 ≡ some second)
      × ((v : ℕ) → get v (enter u second none (enter u first none users).1).1 ≢ some first)
unfolding enter
enter-race u first second users differ new = (
  get-insert_same u second _,
  λ v e. elim (Bool-cases (v == u)) [
    | inl same ↦ differ (
        some-injective first second (
          sym e
          ∙ ap (λ x. get x (insert u second (insert u first users))) ((==_iff v u).0 same)
          ∙ get-insert_same u second _))
    | inr other ↦
        let away : v ≢ u = λ s. absurd (cc ((==_iff v u).1 s, other)) in
        new v (
          sym (
            get-insert_other u v second (insert u first users) away
            ∙ get-insert_other u v first users away)
          ∙ e)
  ],
)
