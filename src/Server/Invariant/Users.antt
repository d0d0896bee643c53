-- ===== src/Server/Invariant/Users.antt =====
-- The invariant and the insertion of chat_server/src/services/user.rs.
use chat.Base.{
  ℕ, ◌≡◌, refl, ℤ, eq_ℤ, Text, true, false, Option, none, some, List, [], ◌∷◌, ◌++◌, arith, has_key,
  has_key-append, DistinctKeys-snoc, All-weaken, inl, inr, any, text_eq, ◌||◌, ◌+◌, Bool-cases,
  Option-cases,
}
use chat.Server.Models.{UserRow, Workspace}
use chat.Server.World.{Tables}
use chat.Server.Sql.Users.{insert_user, put_user}
use chat.Server.Sql.Workspaces.{belongs, user_by_id}
use chat.Server.Sql.Rows.{nextval}
use chat.Server.Invariant.{IsValid, IsRoster, IsOwned, user_key, workspace_key}

IsRoster-append :
    (us : List UserRow) (r : UserRow) (members : List ℤ)
    → IsRoster us members
    → IsRoster (us ++ r ∷ []) members
IsRoster-append us r members h = record {
  known =
      All-weaken (λ z. has_key user_key z us ≡ true) _
        (λ z k. has_key-append user_key z us (r ∷ []) k) members h.known;
  once = h.once;
  enough = h.enough;
}

belongs-append :
    (owner id : ℤ) (us : List UserRow) (r : UserRow)
    → belongs owner id us ≡ true
    → belongs owner id (us ++ r ∷ []) ≡ true
unfolding belongs user_by_id
belongs-append owner id [] r h = cc
belongs-append owner id (u ∷ us) r h = ground (arith, belongs-append owner id us r)

IsOwned-append :
    (us : List UserRow) (r : UserRow) (w : Workspace) → IsOwned us w → IsOwned (us ++ r ∷ []) w
IsOwned-append us r w (inl e) = inl e
IsOwned-append us r w (inr b) = inr (belongs-append w.owner_id w.id us r b)

IsValid-add_user :
    (t : Tables) (r : UserRow) (n : ℕ)
    → IsValid t
    → has_key user_key r.id t.users ≡ false
    → IsValid (record t { users = t.users ++ r ∷ []; users_seq = n })
IsValid-add_user t r n v new = record {
  users_once = DistinctKeys-snoc user_key r t.users v.users_once new;
  chats_once = v.chats_once;
  messages_once = v.messages_once;
  rosters =
      All-weaken (λ c. IsRoster t.users c.members) _ (λ c h. IsRoster-append t.users r c.members h)
        t.chats v.rosters;
  owners = All-weaken (IsOwned t.users) _ (IsOwned-append t.users r) t.workspaces v.owners;
  homes = v.homes;
  threads = v.threads;
  issued = v.issued;
}

-- a free email and a free id
absent_of_free :
    (email : Text) (id : ℤ) (us : List UserRow)
    → any (λ u. text_eq u.email email || eq_ℤ u.id id) us ≡ false
    → has_key user_key id us ≡ false
absent_of_free email id [] h = refl
absent_of_free email id (u ∷ us) h = ground (arith, absent_of_free email id us)

IsValid-users_seq : (t : Tables) (n : ℕ) → IsValid t → IsValid (record t { users_seq = n })
IsValid-users_seq t n v = record {
  users_once = v.users_once;
  chats_once = v.chats_once;
  messages_once = v.messages_once;
  rosters = v.rosters;
  owners = v.owners;
  homes = v.homes;
  threads = v.threads;
  issued = v.issued;
}

put_user-IsValid :
    (t : Tables) (n : ℕ) (o : Option UserRow)
    → IsValid t
    → IsValid (put_user o (record t { users_seq = n })).1
unfolding put_user
put_user-IsValid t n none v = IsValid-users_seq t n v
put_user-IsValid t n (some r) v =
    elim (Bool-cases (any (λ u. text_eq u.email r.email || eq_ℤ u.id r.id) t.users)) [
      | inl taken ↦ rw taken (IsValid-users_seq t n v)
      | inr free ↦ rw free (elim (Bool-cases (has_key workspace_key r.ws_id t.workspaces)) [
        | inl known ↦ rw known (IsValid-add_user t r n v (absent_of_free r.email r.id t.users free))
        | inr unknown ↦ rw unknown (IsValid-users_seq t n v)
      ])
    ]

-- A new user, or none, keeps the invariant.
pub insert_user-IsValid :
    (ws_id : ℤ) (email fullname password_hash : Text) (t : Tables)
    → IsValid t
    → IsValid (insert_user ws_id email fullname password_hash t).1
unfolding insert_user
insert_user-IsValid ws_id email fullname password_hash t v =
    elim (Option-cases (nextval t.users_seq)) [
      | inl spent ↦ rw (spent, insert_user) v
      | inr (id, issued) ↦ rw (issued, insert_user) (put_user-IsValid t (t.users_seq + 1) _ v)
    ]
