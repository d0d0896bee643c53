-- ===== src/Server/Services/Ws/Listed.antt =====
-- The users that `WsService::fetch_all_chat_users` (chat_server/src/services/ws.rs) lists.
use chat.Base.{
  ℕ, ◌≡◌, refl, ◌∙◌, ℤ, pos, negsuc, eq_ℤ, ltb_ℤ, as_i64, Bool, true, false, List, [], ◌∷◌, All,
  All-weaken, map, select, length, arith, Bool-cases, inl, inr,
}
use chat.Server.Models.{UserRow}
use chat.Server.Error.{ok}
use chat.Server.World.{World}
use chat.Server.World.Triples.{query_up}
use chat.Server.Sql.Users.{chat_user_of}
use chat.Server.Sql.Workspaces.{select_workspace_users, place_user, order_asc}
use chat.Server.Services.Ws.{fetch_all_chat_users}

-- no id is less than one before it
abbrev pub IsAscending : List UserRow → Type 0
IsAscending [] = Unit
IsAscending (u ∷ us) = All (λ x. ltb_ℤ x.id u.id ≡ false) us × IsAscending us

not_less_trans : (a b c : ℤ) → ltb_ℤ b a ≡ false → ltb_ℤ c b ≡ false → ltb_ℤ c a ≡ false
not_less_trans (pos a) (pos b) (pos c) h k = ground arith
not_less_trans (pos a) (pos b) (negsuc c) h k = ground arith
not_less_trans (pos a) (negsuc b) (pos c) h k = ground arith
not_less_trans (pos a) (negsuc b) (negsuc c) h k = ground arith
not_less_trans (negsuc a) (pos b) (pos c) h k = ground arith
not_less_trans (negsuc a) (pos b) (negsuc c) h k = ground arith
not_less_trans (negsuc a) (negsuc b) (pos c) h k = ground arith
not_less_trans (negsuc a) (negsuc b) (negsuc c) h k = ground arith

less_not_back : (a b : ℤ) → ltb_ℤ a b ≡ true → ltb_ℤ b a ≡ false
less_not_back (pos a) b h = ground arith
less_not_back (negsuc a) b h = ground arith

module _ (P : UserRow → Type 0) where
  All-place_user : (u : UserRow) (us : List UserRow) → P u → All P us → All P (place_user u us)
  unfolding place_user
  All-place_user u [] p h = (p, tt)
  All-place_user u (x ∷ us) p h = elim (Bool-cases (ltb_ℤ x.id u.id)) [
    | inl less ↦ rw less (h.0, All-place_user u us p h.1)
    | inr more ↦ rw more (p, h)
  ]

  All-order_asc : (us : List UserRow) → All P us → All P (order_asc us)
  unfolding order_asc
  All-order_asc [] h = tt
  All-order_asc (u ∷ us) h = All-place_user u (order_asc us) h.0 (All-order_asc us h.1)

place_user-IsAscending :
    (u : UserRow) (us : List UserRow) → IsAscending us → IsAscending (place_user u us)
unfolding place_user
place_user-IsAscending u [] d = (tt, tt)
place_user-IsAscending u (x ∷ us) d = elim (Bool-cases (ltb_ℤ x.id u.id)) [
  | inl less ↦ rw less (
    All-place_user (λ y. ltb_ℤ y.id x.id ≡ false) u us (less_not_back x.id u.id less) d.0,
    place_user-IsAscending u us d.1,
  )
  | inr more ↦ rw more (
    (
      more,
      All-weaken (λ y. ltb_ℤ y.id x.id ≡ false) _ (λ y l. not_less_trans u.id x.id y.id more l) us
          d.0,
    ),
    d,
  )
]

order_asc-IsAscending : (us : List UserRow) → IsAscending (order_asc us)
unfolding order_asc
order_asc-IsAscending [] = tt
order_asc-IsAscending (u ∷ us) = place_user-IsAscending u (order_asc us) (order_asc-IsAscending us)

module _ (p : UserRow → Bool) where
  length-place_user :
      (u : UserRow) (us : List UserRow)
      → length (select p (place_user u us)) ≡ length (select p (u ∷ us))
  unfolding place_user
  length-place_user u [] = refl
  length-place_user u (x ∷ us) = ground (arith, length-place_user u us)

  length-order_asc : (us : List UserRow) → length (select p (order_asc us)) ≡ length (select p us)
  unfolding order_asc
  length-order_asc [] = refl
  length-order_asc (u ∷ us) =
      length-place_user u (order_asc us) ∙ ground (arith, length-order_asc us)

All-selected : (p : UserRow → Bool) (us : List UserRow) → All (λ u. p u ≡ true) (select p us)
All-selected p [] = tt
All-selected p (u ∷ us) = elim (Bool-cases (p u)) [
  | inl chosen ↦ rw chosen (chosen, All-selected p us)
  | inr left_out ↦ rw left_out (All-selected p us)
]

-- The rows of a workspace's users by ascending id, each as often as the table has it.
pub record IsListing (ws_id : ℤ) (table rows : List UserRow) : Type 0 where
  pub theirs : All (λ u. eq_ℤ u.ws_id ws_id ≡ true) rows
  pub in_order : IsAscending rows
  pub each :
      (p : UserRow → Bool)
      → length (select p rows) ≡ length (select p (select (λ u. eq_ℤ u.ws_id ws_id) table))

-- With its statement answered, `fetch_all_chat_users` returns id, name and email of the users of that
-- workspace, by ascending id, each as often as the table has it, and changes nothing.
pub fetch_all_chat_users-IsListing :
    (id : ℕ) (w : World)
    → w.link ≡ []
    → (rows : List UserRow) × (fetch_all_chat_users id w ≡ (ok (map chat_user_of rows), w))
      × IsListing (as_i64 id) w.tables.users rows
unfolding fetch_all_chat_users select_workspace_users
fetch_all_chat_users-IsListing id w up =
    let theirs = select (λ (u : UserRow). eq_ℤ u.ws_id (as_i64 id)) w.tables.users in
    (
      order_asc theirs,
      query_up (select_workspace_users (as_i64 id)) w up,
      record {
        theirs =
            All-order_asc (λ u. eq_ℤ u.ws_id (as_i64 id) ≡ true) theirs
              (All-selected (λ u. eq_ℤ u.ws_id (as_i64 id)) w.tables.users);
        in_order = order_asc-IsAscending theirs;
        each = λ p. length-order_asc p theirs;
      },
    )
