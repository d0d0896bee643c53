-- ===== src/Tests/Signin.antt =====
-- A sign-in at concrete inputs.
use chat.Base.{◌≡◌, ◌⊎◌, refl, true, false, Text, codes}
use chat.Samples.{some_app, some_env, quiet, bob}
use chat.Http.{Response, respond_with, auth_output, error}
use chat.Server.Error.{ok}
use chat.Server.Models.{SigninUser}
use chat.Server.Sql.Users.{user_returned}
use chat.Server.Handlers.{App}
use chat.Server.Handlers.Accounts.{signin_handler}
use chat.Server.Handlers.Signin.{signin_handler-admitted, IsLetIn}
use chat.Tests.Tokens.{narrow_keys, narrow_keys-IsSound}
use chat.Tests.Tables.{bob_there}

abbrev bobs_app : App
bobs_app = record some_app { keys = narrow_keys (user_returned bob) }

abbrev bobs : SigninUser
bobs = record { email = codes "b@x.org"; password = codes "secret" }

abbrev back : Response
back = respond_with 200 (auth_output (codes "token"))

signed_in_again : signin_handler bobs_app bobs quiet ≡ (ok back, quiet)
unfolding signin_handler chat.Server.World.◌>>=◌ chat.Server.Services.Users.verify
    chat.Server.World.query chat.Server.Sql.Users.select_user_by_email
    chat.Server.Services.Users.check_password chat.Server.Sql.Users.user_by_email
    chat.Server.Services.Users.verify_password chat.Server.Handlers.Accounts.signed_in
    chat.Server.Handlers.Accounts.token_response chat.Server.Services.Msgs.lift chat.Core.Jwt.sign
signed_in_again = refl

signin_handler-admitted_example :
    (quiet ≡ quiet)
    × (((some_env.argon2_verify (codes "secret") (codes "secret") ≡ false)
          × (back ≡ respond_with 403 (error (codes "Invalid email or password"))))
        ⊎ ((some_env.argon2_verify (codes "secret") (codes "secret") ≡ true)
            × (token : Text) × (back ≡ respond_with 200 (auth_output token))
            × IsLetIn bobs_app token (user_returned bob)))
signin_handler-admitted_example =
    signin_handler-admitted bobs_app bobs quiet quiet bob (codes "secret") back
      (narrow_keys-IsSound (user_returned bob)) refl bob_there refl signed_in_again
