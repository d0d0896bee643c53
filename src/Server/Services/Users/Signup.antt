-- ===== src/Server/Services/Users/Signup.antt =====
-- What `UserService::create` (chat_server/src/services/user.rs) stores.
use chat.Base.{
  ℕ, ℤ, pos, as_i64, ◌≡◌, refl, sym, ap, subst, ◌∙◌, as_u64, Text, Option, none, some, List, [],
  ◌∷◌, ◌++◌, arith, Option-cases, Bool-cases, inl, inr, eq_ℤ, ◌+◌,
}
use chat.Core.{User}
use chat.Server.Models.{CreateUser, UserRow, Workspace}
use chat.Server.Error.{Result, ok, err, panic, ok-injective}
use chat.Server.World.{Env, World, Tables, ◌>>◌}
use chat.Server.World.Triples.{Triple, Triple->>=, Triple-query, Ends, Ends-ok}
use chat.Server.Sql.Rows.{fit, nextval}
use chat.Server.Sql.Users.{
  user_by_email, select_user_by_email, insert_user, put_user, user_row, user_returned, user_of,
}
use chat.Server.Sql.Workspaces.{
  select_workspace_by_name, insert_workspace, put_workspace, update_workspace_owner,
}
use chat.Server.Services.Ws
use chat.Server.Services.Users.{
  create, create_unless, create_new, find_by_email, workspace_for, hash_password, take_over,
  lift_hash,
}

-- the hash stored is one that argon2 gives for the password under some salt
abbrev pub IsHashed : Env → (password : Text) → (hash : Text) → Type 0
IsHashed env password hash = (salt : Text) × (env.argon2_hash password salt ≡ ok hash)

-- What an INSERT INTO users returned, and what the users then are.
pub record IsRegistered (env : Env) (input : CreateUser) (before : List UserRow) (user : User)
    (after : List UserRow) : Type 0 where
  pub unused : user_by_email input.email before ≡ none
  pub row : UserRow
  pub returned : user ≡ user_returned row
  pub added : after ≡ before ++ row ∷ []
  pub email : fit 64 input.email ≡ some row.email
  pub fullname : fit 64 input.fullname ≡ some row.fullname
  pub hashed :
      (hash : Text) × IsHashed env input.password hash × (fit 97 hash ≡ some row.password_hash)

put_user-ok :
    (r : UserRow) (t : Tables) (user : User)
    → (put_user (some r) t).0 ≡ ok user
    → (user ≡ user_returned r) × ((put_user (some r) t).1.users ≡ t.users ++ r ∷ [])
unfolding put_user
put_user-ok r t user e = (ground arith, ground arith)

put_user-none : (t : Tables) (user : User) → (put_user none t).0 ≡ ok user → ⊥
unfolding put_user
put_user-none t user e = cc e

user_row-fields :
    (ws_id : ℤ) (email fullname hash : Text) (now : ℕ) (id : ℤ) (r : UserRow)
    → user_row ws_id email fullname hash now id ≡ some r
    → (fit 64 email ≡ some r.email)
      × (fit 64 fullname ≡ some r.fullname)
      × (fit 97 hash ≡ some r.password_hash)
unfolding user_row
user_row-fields ws_id email fullname hash now id r e = ground arith

pub insert_workspace-users :
    (name : Text) (z : ℤ) (t : Tables) → (insert_workspace name z t).1.users ≡ t.users
unfolding insert_workspace put_workspace
insert_workspace-users name z t = ground arith

pub update_workspace_owner-users :
    (a b : ℤ) (t : Tables) → (update_workspace_owner a b t).1.users ≡ t.users
unfolding update_workspace_owner
update_workspace_owner-users a b t = ground arith

module _ (env : Env) (input : CreateUser) (before : List UserRow) where
  abbrev Same : {A : Type 0} → A → Tables → Type 0
  Same _ u = u.users ≡ before

  abbrev Registered : User → Tables → Type 0
  Registered user u = IsRegistered env input before user u.users

  abbrev Nothing : Tables → Type 0
  Nothing u = Unit

  module _ (unused : user_by_email input.email before ≡ none) where
    insert_user-IsRegistered :
        (ws_id : ℤ) (hash : Text) (t : Tables) (user : User)
        → IsHashed env input.password hash
        → t.users ≡ before
        → (insert_user ws_id input.email input.fullname hash t).0 ≡ ok user
        → Registered user (insert_user ws_id input.email input.fullname hash t).1
    unfolding insert_user
    insert_user-IsRegistered ws_id hash t user h b e = elim (Option-cases (nextval t.users_seq)) [
      | inl spent ↦ absurd (ground arith)
      | inr (id, issued) ↦ rw (issued, insert_user) (put id _ refl (rw (issued, insert_user) at e))
    ]
      where
        put :
            (id : ℤ) (o : Option UserRow)
            → user_row ws_id input.email input.fullname hash t.clock id ≡ o
            → (put_user o (record t { users_seq = t.users_seq + 1 })).0 ≡ ok user
            → Registered user (put_user o (record t { users_seq = t.users_seq + 1 })).1
        put id none f e = absurd (put_user-none _ user e)
        put id (some r) f e =
            let (returned, added) = put_user-ok r _ user e in
            let (mail, full, hashed) =
              user_row-fields ws_id input.email input.fullname hash t.clock id r f in
            record {
              unused = unused;
              row = r;
              returned = returned;
              added = added ∙ ap (λ us. us ++ r ∷ []) b;
              email = mail;
              fullname = full;
              hashed = (hash, h, hashed);
            }

    take_over-Registered :
        (ws : Workspace) (user : User)
        → Triple (Registered user) (take_over ws user) Registered Nothing
    unfolding take_over Ws.update_owner ◌>>◌
    take_over-Registered ws user = elim (Bool-cases (eq_ℤ ws.owner_id (pos 0))) [
      | inr owned ↦ rw owned (λ w p. p)
      | inl free ↦ rw free (
          Triple->>= (Registered user) (λ _. Registered user) Registered Nothing _ _
            (Triple-query (Registered user) (update_workspace_owner (as_i64 (as_u64 user.id)) ws.id)
              (λ _. Registered user) Nothing
              (record {
                skipped = λ u p. tt;
                unheard = λ u p. tt;
                heard = λ u a p e.
                    subst (IsRegistered env input before user)
                      (sym (update_workspace_owner-users (as_i64 (as_u64 user.id)) ws.id u)) p;
              }))
            (λ _ w p. p))
    ]

    workspace_for-Same :
        (o : Option Workspace) → Triple (Same o) (workspace_for input.workspace o) Same Nothing
    unfolding workspace_for Ws.create
    workspace_for-Same (some ws) = λ w p. p
    workspace_for-Same none =
        Triple-query _ (insert_workspace input.workspace (as_i64 0)) Same Nothing (record {
          skipped = λ u p. tt;
          unheard = λ u p. tt;
          heard = λ u a p e. insert_workspace-users input.workspace (as_i64 0) u ∙ p;
        })

    hash_password-IsHashed :
        {A : Type 0} (a : A)
        → Triple
            (Same a)
            (hash_password env input.password)
            (λ h u. IsHashed env input.password h × (u.users ≡ before))
            Nothing
    unfolding hash_password
    hash_password-IsHashed a w p = made _ refl
      where
        made :
            (r : Result Text Text)
            → env.argon2_hash input.password (env.salt w.drawn) ≡ r
            → Ends
                (λ h u. IsHashed env input.password h × (u.users ≡ before))
                Nothing
                (lift_hash r)
                w.tables
        made (ok h) e = ((_, e), p)
        made (err x) e = tt
        made panic e = tt

    create_new-Registered : Triple (λ u. u.users ≡ before) (create_new env input) Registered Nothing
    unfolding create_new Ws.find_by_name select_workspace_by_name
    create_new-Registered =
        Triple->>= _ Same Registered Nothing _ _
          (Triple-query (λ u. u.users ≡ before) (select_workspace_by_name input.workspace) Same
            Nothing (record { skipped = λ u p. tt; unheard = λ u p. tt; heard = λ u a p e. p }))
          (λ found. Triple->>= _ Same Registered Nothing _ _ (workspace_for-Same found) (λ ws.
            Triple->>= (Same ws) (λ h u. IsHashed env input.password h × (u.users ≡ before))
              Registered Nothing _ _ (hash_password-IsHashed ws)
              (λ hash.
                Triple->>= _ Registered Registered Nothing _ _
                  (Triple-query (λ u. IsHashed env input.password hash × (u.users ≡ before))
                    (insert_user ws.id input.email input.fullname hash) Registered Nothing
                    (record {
                      skipped = λ u p. tt;
                      unheard = λ u p. tt;
                      heard = λ u user p e. insert_user-IsRegistered ws.id hash u user p.0 p.1 e;
                    }))
                  (take_over-Registered ws))))

module _ (env : Env) (input : CreateUser) (t : Tables) where
  abbrev Looked : Option User → Tables → Type 0
  Looked o u = (o ≡ none → user_by_email input.email t.users ≡ none) × (u.users ≡ t.users)

  no_row :
      (o : Option UserRow)
      → ◌≡◌ {A = Option User} (elim o [ none ↦ none | some r ↦ some (user_of r) ]) none
      → o ≡ none
  no_row none e = refl
  no_row (some r) e = absurd (cc e)

  find_by_email-Looked :
      Triple (λ u. u.users ≡ t.users) (find_by_email input.email) Looked (λ _. Unit)
  unfolding find_by_email select_user_by_email
  find_by_email-Looked =
      Triple-query (λ u. u.users ≡ t.users) (select_user_by_email input.email) Looked (λ _. Unit)
        (record {
          skipped = λ u p. tt;
          unheard = λ u p. tt;
          heard = λ u o p e. (
            λ n.
                ap (user_by_email input.email) (sym p)
                ∙ no_row (user_by_email input.email u.users) (ok-injective _ o e ∙ n),
            p,
          );
        })

  create_unless-Registered :
      (o : Option User)
      → Triple (Looked o) (create_unless env input o) (Registered env input t.users) (λ _. Unit)
  unfolding create_unless
  create_unless-Registered (some user) = λ w p. tt
  create_unless-Registered none = λ w p. create_new-Registered env input t.users (p.0 refl) w p.1

-- If `create` returns a user, whatever the connection did, no stored user had the email asked for,
-- and the only change of the users is one new row: it has the email and the full name asked for, as
-- columns of 64 characters take them, and a hash that argon2 gives for the password under some salt,
-- as a column of 97 characters takes it; the user returned is that row less the hash.
pub create-IsRegistered :
    (env : Env) (input : CreateUser) (w : World) (user : User)
    → (create env input w).0 ≡ ok user
    → IsRegistered env input w.tables.users user (create env input w).1.tables.users
unfolding create
create-IsRegistered env input w user e =
    Ends-ok (Registered env input w.tables.users) (λ _. Unit) _ user _
      (Triple->>= _ (Looked env input w.tables) (Registered env input w.tables.users) (λ _. Unit) _
        _ (find_by_email-Looked env input w.tables) (create_unless-Registered env input w.tables) w
        refl)
      e
