-- ===== src/Notify/Sse/Delivery.antt =====
-- Who receives what the listener task (notify_server/src/notif.rs) sends.
use chat.Base.{
  ℕ, ◌≡◌, refl, ap, ◌⊎◌, inl, inr, Text, true, none, some, List, [], ◌∷◌, ◌++◌, arith, Bool-cases,
  ◌==◌, ==_iff, All, All-weaken, Option-cases, ◌≢◌, subst, ◌||◌,
}
use chat.Server.Error.{Result, ok, err, panic}
use chat.Notify.Sets.{contains}
use chat.Notify.Notif.{Notification, Json, load, AppEvent}
use chat.Notify.Sse.{UserMap, get, send_all, listen, after_load, Incoming, notified, broken}

-- `event` is sent to the sender `tx`
abbrev pub IsSent : ℕ → AppEvent → List (ℕ × AppEvent) → Type 0
IsSent tx event [] = ⊥
IsSent tx event (s ∷ sends) = (s ≡ (tx, event)) ⊎ IsSent tx event sends

-- one message that the task sends: to the sender of one of the users, and it is the event
abbrev pub IsAddressed : UserMap → AppEvent → List ℕ → ℕ × AppEvent → Type 0
IsAddressed users event ids s =
    (user_id : ℕ) × (contains user_id ids ≡ true) × (get user_id users ≡ some s.0) × (s.1 ≡ event)

module _ (users : UserMap) (event : AppEvent) where
  send_all-some :
      (x tx : ℕ) (ids : List ℕ)
      → get x users ≡ some tx
      → send_all users event (x ∷ ids) ≡ (tx, event) ∷ send_all users event ids
  unfolding send_all
  send_all-some x tx ids h = rw (h, send_all) refl

  send_all-none :
      (x : ℕ) (ids : List ℕ)
      → get x users ≡ none
      → send_all users event (x ∷ ids) ≡ send_all users event ids
  unfolding send_all
  send_all-none x ids h = rw (h, send_all) refl

  send_all-reaches :
      (ids : List ℕ) (user_id tx : ℕ)
      → contains user_id ids ≡ true
      → get user_id users ≡ some tx
      → IsSent tx event (send_all users event ids)
  unfolding contains
  send_all-reaches [] user_id tx i there = absurd (cc i)
  send_all-reaches (x ∷ ids) user_id tx i there = elim (Bool-cases (user_id == x)) [
    | inl same ↦
        rw
          (send_all-some x tx ids
            (subst (λ y. get y users ≡ some tx) ((==_iff user_id x).0 same) there))
          (inl refl)
    | inr other ↦
        let later =
          send_all-reaches ids user_id tx (subst (λ b. (b || contains user_id ids) ≡ true) other i)
            there in
        elim (Option-cases (get x users)) [
          | inl absent ↦ rw (send_all-none x ids absent) later
          | inr (s, present) ↦ rw (send_all-some x s ids present) (inr later)
        ]
  ]

  IsAddressed-more :
      (x : ℕ) (ids : List ℕ) (s : ℕ × AppEvent)
      → IsAddressed users event ids s
      → IsAddressed users event (x ∷ ids) s
  unfolding contains
  IsAddressed-more x ids s (u, i, g, e) = (u, ground arith, g, e)

  send_all-IsAddressed :
      (ids : List ℕ) → All (IsAddressed users event ids) (send_all users event ids)
  unfolding contains
  send_all-IsAddressed [] = unfold send_all in tt
  send_all-IsAddressed (x ∷ ids) =
      let later =
        All-weaken _ (IsAddressed users event (x ∷ ids)) (IsAddressed-more x ids) _
          (send_all-IsAddressed ids) in
      elim (Option-cases (get x users)) [
        | inl absent ↦ rw (send_all-none x ids absent) later
        | inr (s, present) ↦
            rw (send_all-some x s ids present) ((x, ground arith, present, refl), later)
      ]

-- A notification that loads is sent, as its event and nothing else, to the sender of each of its
-- users who has one in the map, and to no other sender, before anything of the rest of the stream.
pub listen-delivers :
    (json : Json) (rtype payload : Text) (users : UserMap) (stream : List (Incoming × UserMap))
    (n : Notification)
    → load json rtype payload ≡ ok n
    → (sends : List (ℕ × AppEvent)) × (listen json ((notified rtype payload, users) ∷ stream)
        ≡ sends ++ listen json stream)
      × All (IsAddressed users n.event n.user_ids) sends
      × ((user_id tx : ℕ)
          → contains user_id n.user_ids ≡ true
          → get user_id users ≡ some tx
          → IsSent tx n.event sends)
unfolding listen
listen-delivers json rtype payload users stream n loaded = (
  send_all users n.event n.user_ids,
  rw loaded refl,
  send_all-IsAddressed users n.event n.user_ids,
  send_all-reaches users n.event n.user_ids,
)

-- what ends the task: a stream error, or a notification that does not load
abbrev pub IsLast : Json → Incoming → Type 0
IsLast json broken = Unit
IsLast json (notified rtype payload) = (n : Notification) → load json rtype payload ≢ ok n

after_load-last :
    (r : Result Text Notification) (users : UserMap) (rest : List (ℕ × AppEvent))
    → ((n : Notification) → r ≢ ok n)
    → after_load r users rest ≡ []
after_load-last (ok n) users rest l = absurd (l n refl)
after_load-last (err e) users rest l = refl
after_load-last panic users rest l = refl

-- After a stream error, or a notification that does not load, the listener task sends nothing more,
-- whatever the stream still holds.
pub listen-IsLast :
    (json : Json) (before after : List (Incoming × UserMap)) (item : Incoming) (users : UserMap)
    → IsLast json item
    → listen json (before ++ (item, users) ∷ after) ≡ listen json before
unfolding listen
listen-IsLast json [] after broken users l = refl
listen-IsLast json [] after (notified rtype payload) users l =
    after_load-last (load json rtype payload) users (listen json after) l
listen-IsLast json ((broken, us) ∷ before) after item users l = refl
listen-IsLast json ((notified rtype payload, us) ∷ before) after item users l =
    ap (after_load (load json rtype payload) us) (listen-IsLast json before after item users l)
