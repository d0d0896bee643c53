-- ===== src/Server/Services/Chats/Membership.antt =====
-- Whom `is_chat_member` (chat_server/src/services/chat.rs) lets in.
use chat.Base.{
  ℕ, ℤ, ◌≡◌, refl, sym, subst, inl, inr, as_i64, eq_ℤ, eq_ℤ_iff, is_any, false, ◌&&◌, Option, none,
  some, List, [], ◌∷◌, find, has_key, DistinctKeys, arith, if◌then◌else◌, Bool-cases,
}
use mathlib.Core.Option.{some-injective}
use chat.Core.{Chat}
use chat.Server.Error.{ok}
use chat.Server.World.{World, ◌>>=◌}
use chat.Server.World.Triples.{query_up}
use chat.Server.Sql.Chats.{select_membership, chat_by_id}
use chat.Server.Services.Chats.{is_chat_member}
use chat.Server.Invariant.{chat_key}

abbrev listed : ℤ → ℤ → List Chat → Option Chat
listed id z = find (λ c. eq_ℤ c.id id && is_any z c.members)

listed-absent : (id z : ℤ) (cs : List Chat) → has_key chat_key id cs ≡ false → listed id z cs ≡ none
listed-absent id z [] h = refl
listed-absent id z (c ∷ cs) h = ground (arith, listed-absent id z cs)

listed-chat_by_id :
    (id z : ℤ) (cs : List Chat) (c : Chat)
    → DistinctKeys chat_key cs
    → chat_by_id id cs ≡ some c
    → listed id z cs ≡ (if is_any z c.members then some c else none)
unfolding chat_by_id
listed-chat_by_id id z [] c d h = absurd (cc h)
listed-chat_by_id id z (x ∷ cs) c d h = elim (Bool-cases (eq_ℤ x.id id)) [
  | inl here ↦
      let same : x ≡ c =
        some-injective x c
          (subst (λ b. (if b then some x else chat_by_id id cs) ≡ some c) here h) in
      rw
        (
          here,
          sym same,
          listed-absent id z cs
              (subst (λ i. has_key chat_key i cs ≡ false) ((eq_ℤ_iff x.id id).0 here) d.0),
        )
        refl
  | inr there ↦ rw there (
      listed-chat_by_id id z cs c d.1
        (subst (λ b. (if b then some x else chat_by_id id cs) ≡ some c) there h))
]

-- With its statement answered and chat ids distinct, `is_chat_member` of a stored chat says whether
-- the user id, taken as an i64, is among the chat's members, and changes nothing.
pub is_chat_member-is_any :
    (chat_id user_id : ℕ) (w : World) (c : Chat)
    → w.link ≡ []
    → DistinctKeys chat_key w.tables.chats
    → chat_by_id (as_i64 chat_id) w.tables.chats ≡ some c
    → is_chat_member chat_id user_id w ≡ (ok (is_any (as_i64 user_id) c.members), w)
unfolding is_chat_member ◌>>=◌ select_membership
is_chat_member-is_any chat_id user_id w c up d there =
    let answer = query_up (select_membership (as_i64 chat_id) (as_i64 user_id)) w up in
    let row = listed-chat_by_id (as_i64 chat_id) (as_i64 user_id) w.tables.chats c d there in
    elim (Bool-cases (is_any (as_i64 user_id) c.members)) [
      | inl in_it ↦ rw (answer, row, in_it) refl
      | inr out ↦ rw (answer, row, out) refl
    ]
