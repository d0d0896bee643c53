-- ===== src/Server/Services/Users/Return.antt =====
-- A user who has signed up and signs in: `create` and `verify` of chat_server/src/services/user.rs.
use chat.Base.{
  ◌≡◌, refl, sym, ap, subst, ◌∙◌, Text, text_eq_iff, true, none, some, List, [], ◌∷◌, ◌++◌, arith,
}
use mathlib.Core.Option.{some-injective}
use chat.Core.{User}
use chat.Server.Models.{CreateUser, UserRow}
use chat.Server.Error.{ok}
use chat.Server.World.{Env, World}
use chat.Server.Sql.Rows.{fit}
use chat.Server.Sql.Users.{user_by_email}
use chat.Server.Services.Users.{create, verify}
use chat.Server.Services.Users.Signup.{create-IsRegistered}
use chat.Server.Services.Users.Signin.{verify-user_by_email}

-- What is relied on of argon2: a hash that it gives for a password is one that it parses, and it
-- accepts the password; and the column of 97 characters holds the hash.
pub record IsArgon2 (env : Env) : Type 0 where
  pub accepts :
      (password salt hash : Text)
      → env.argon2_hash password salt ≡ ok hash
      → (parsed : Text) × (env.argon2_parse hash ≡ ok parsed)
        × (env.argon2_verify password parsed ≡ true)
  pub fits :
      (password salt hash : Text)
      → env.argon2_hash password salt ≡ ok hash
      → fit 97 hash ≡ some hash

user_by_email-snoc :
    (email : Text) (r : UserRow) (us : List UserRow)
    → user_by_email email us ≡ none
    → r.email ≡ email
    → user_by_email email (us ++ r ∷ []) ≡ some r
unfolding user_by_email
user_by_email-snoc email r [] h e = rw ((text_eq_iff r.email email).1 e) refl
user_by_email-snoc email r (u ∷ us) h e = ground (arith, user_by_email-snoc email r us)

-- With argon2 as documented and an email of at most 64 characters: if `create` returns a user, whatever
-- the connection did, then as long as the table of users stays as it is, `verify` of that email and
-- password, with its statement answered, returns the same user and changes nothing.
pub verify-create :
    (env : Env) (input : CreateUser) (w v : World) (user : User)
    → IsArgon2 env
    → fit 64 input.email ≡ some input.email
    → (create env input w).0 ≡ ok user
    → v.tables.users ≡ (create env input w).1.tables.users
    → v.link ≡ []
    → verify env (record { email = input.email; password = input.password }) v ≡ (ok (some user), v)
verify-create env input w v user argon2 short e same up =
    let p = create-IsRegistered env input w user e in
    let (hash, (salt, h), kept) = p.hashed in
    let (parsed, parses, accepted) = argon2.accepts input.password salt hash h in
    let hash_same : hash ≡ p.row.password_hash =
      some-injective _ _ (sym (argon2.fits input.password salt hash h) ∙ kept) in
    let email_same : p.row.email ≡ input.email = some-injective _ _ (sym p.email ∙ short) in
    let there : user_by_email input.email v.tables.users ≡ some p.row =
      ap (user_by_email input.email) (same ∙ p.added)
      ∙ user_by_email-snoc input.email p.row w.tables.users p.unused email_same in
    verify-user_by_email env (record { email = input.email; password = input.password }) v p.row
      parsed up there (subst (λ x. env.argon2_parse x ≡ ok parsed) hash_same parses)
    ∙ rw accepted (ap (λ u. (ok (some u), v)) (sym p.returned))
