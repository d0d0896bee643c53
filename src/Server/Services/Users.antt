-- ===== src/Server/Services/Users.antt =====
-- `UserService`: chat_server/src/services/user.rs.
pub mod Signin
pub mod Return
pub mod Signup
use chat.Base.{
  ℕ, ◌+◌, ℤ, pos, eq_ℤ, as_u64, as_i64, Text, Bool, Option, none, some, List, [], if◌then◌else◌,
}
use chat.Core.{User}
use chat.Server.Models.{CreateUser, SigninUser, ChatUser, Workspace}
use chat.Server.Error.{AppError, email_already_exists, password_hash_error, Result, ok, err, panic}
use chat.Server.World.{M, Env, query, pure, raise, ◌>>=◌, ◌>>◌}
use chat.Server.Sql.Users.{
  select_user_by_email, insert_user, select_users_by_ids, select_users_by_ws,
}
use chat.Server.Services.Ws

unfoldable pub find_by_email : Text → M (Option User)
find_by_email email = query (select_user_by_email email)

-- `?` on a result of argon2
abbrev pub lift_hash : {A : Type 0} → Result Text A → Result AppError A
lift_hash (ok a) = ok a
lift_hash (err e) = err (password_hash_error e)
lift_hash panic = panic

-- the salt is drawn from the random source
unfoldable pub hash_password : Env → Text → M Text
hash_password env password w =
    (lift_hash (env.argon2_hash password (env.salt w.drawn)), record w { drawn = w.drawn + 1 })

unfoldable pub verify_password : Env → (password password_hash : Text) → M Bool
verify_password env password password_hash w = elim (env.argon2_parse password_hash) [
  | ok parsed ↦ (ok (env.argon2_verify password parsed), w)
  | err e ↦ (err (password_hash_error e), w)
  | panic ↦ (panic, w)
]

-- the workspace of that name, made with owner 0 if there is none
unfoldable pub workspace_for : Text → Option Workspace → M Workspace
workspace_for name (some ws) = pure ws
workspace_for name none = Ws.create name 0

-- a new workspace is given to its first user
unfoldable pub take_over : Workspace → User → M User
take_over ws user =
    if eq_ℤ ws.owner_id (pos 0)
    then (Ws.update_owner ws (as_u64 user.id) >> pure user)
    else pure user

-- what `create` does when the email is free
unfoldable pub create_new : Env → CreateUser → M User
create_new env input = do
  found ← Ws.find_by_name input.workspace
  ws ← workspace_for input.workspace found
  password_hash ← hash_password env input.password
  user ← query (insert_user ws.id input.email input.fullname password_hash)
  take_over ws user

unfoldable pub create_unless : Env → CreateUser → Option User → M User
create_unless env input none = create_new env input
create_unless env input (some _) = raise (email_already_exists input.email)

-- `UserService::create`
unfoldable pub create : Env → CreateUser → M User
create env input = do user ← find_by_email input.email; create_unless env input user

abbrev pub or_empty : Option Text → Text
or_empty none = []
or_empty (some s) = s

-- the comparison of `verify`; the hash is taken out of the user
unfoldable pub check_password : Env → Text → Option User → M (Option User)
check_password env password none = pure none
check_password env password (some user) = do
  is_valid ← verify_password env password (or_empty user.password_hash)
  pure (if is_valid then some (record user { password_hash = none }) else none)

-- `UserService::verify`
unfoldable pub verify : Env → SigninUser → M (Option User)
verify env input = do
  user ← query (select_user_by_email input.email)
  check_password env input.password user

unfoldable pub fetch_by_ids : Env → List ℤ → M (List ChatUser)
fetch_by_ids env ids = query (select_users_by_ids env ids)

unfoldable pub fetch_all : Env → ℕ → M (List ChatUser)
fetch_all env ws_id = query (select_users_by_ws env (as_i64 ws_id))
