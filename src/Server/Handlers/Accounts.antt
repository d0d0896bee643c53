-- ===== src/Server/Handlers/Accounts.antt =====
-- Sign-up, sign-in and the users of a workspace: chat_server/src/handlers/auth.rs and workspace.rs.
use chat.Base.{ℕ, as_u64, Text, codes, Option, none, some}
use chat.Core.{User}
use chat.Core.Jwt
use chat.Http.{Response, respond_with, auth_output, error, all_users}
use chat.Server.Error.{AppError, any_error, Result, ok, err, panic}
use chat.Server.Models.{CreateUser, SigninUser}
use chat.Server.World.{M, pure, ◌>>=◌}
use chat.Server.Services.Msgs.{lift}
use chat.Server.Services.Users
use chat.Server.Services.Ws
use chat.Server.Handlers.{App}

-- `?` on a result of jwt_simple, whose error is anyhow's
abbrev pub lift_jwt : {A : Type 0} → Result Text A → Result AppError A
lift_jwt (ok a) = ok a
lift_jwt (err e) = err (any_error e)
lift_jwt panic = panic

-- a signed token as the body of a response
unfoldable pub token_response : App → (status : ℕ) → User → M Response
token_response app status user = do
  token ← lift (lift_jwt (Jwt.sign app.keys user))
  pure (respond_with status (auth_output token))

unfoldable pub signup_handler : App → CreateUser → M Response
signup_handler app input = do user ← Users.create app.env input; token_response app 201 user

unfoldable pub signed_in : App → Option User → M Response
signed_in app (some user) = token_response app 200 user
signed_in app none = pure (respond_with 403 (error (codes "Invalid email or password")))

unfoldable pub signin_handler : App → SigninUser → M Response
signin_handler app input = do user ← Users.verify app.env input; signed_in app user

unfoldable pub list_chat_users_handler : App → User → M Response
list_chat_users_handler app user = do
  users ← Ws.fetch_all_chat_users (as_u64 user.ws_id)
  pure (respond_with 200 (all_users users))
