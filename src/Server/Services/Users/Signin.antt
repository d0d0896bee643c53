-- ===== src/Server/Services/Users/Signin.antt =====
-- Who signs in: `UserService::verify` (chat_server/src/services/user.rs).
use chat.Base.{◌≡◌, refl, ◌∙◌, Text, Option, none, some, [], if◌then◌else◌}
use chat.Core.{User}
use chat.Server.Models.{SigninUser, UserRow}
use chat.Server.Error.{ok}
use chat.Server.World.{Env, World, ◌>>=◌}
use chat.Server.World.Triples.{query_up}
use chat.Server.Sql.Users.{select_user_by_email, user_by_email, user_of, user_returned}
use chat.Server.Services.Users.{verify, check_password, verify_password}

-- what `verify` comes to once the row has been read
abbrev found_row : Option UserRow → Option User
found_row o = elim o [ none ↦ none | some r ↦ some (user_of r) ]

verify_up :
    (env : Env) (input : SigninUser) (w : World)
    → w.link ≡ []
    → verify env input w
      ≡ check_password env input.password (found_row (user_by_email input.email w.tables.users)) w
unfolding verify ◌>>=◌ select_user_by_email
verify_up env input w up = rw (query_up (select_user_by_email input.email) w up) refl

verify_password-ok :
    (env : Env) (password hash parsed : Text) (w : World)
    → env.argon2_parse hash ≡ ok parsed
    → verify_password env password hash w ≡ (ok (env.argon2_verify password parsed), w)
unfolding verify_password
verify_password-ok env password hash parsed w p = rw (p, verify_password) refl

-- With its statement answered, and a stored hash that argon2 can parse, `verify` returns the user of
-- that email, less the password hash, if argon2 accepts the password, and no user if it does not; it
-- changes nothing.
pub verify-user_by_email :
    (env : Env) (input : SigninUser) (w : World) (r : UserRow) (parsed : Text)
    → w.link ≡ []
    → user_by_email input.email w.tables.users ≡ some r
    → env.argon2_parse r.password_hash ≡ ok parsed
    → verify env input w
      ≡ (ok (if env.argon2_verify input.password parsed then some (user_returned r) else none), w)
unfolding check_password ◌>>=◌
verify-user_by_email env input w r parsed up there p =
    verify_up env input w up
    ∙ rw (there, verify_password-ok env input.password r.password_hash parsed w p) refl
