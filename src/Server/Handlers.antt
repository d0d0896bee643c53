-- ===== src/Server/Handlers.antt =====
-- The handlers of the routes, chat_server/src/handlers, and the permission middleware. `App` is
-- `AppState`, less the services, which are the functions of Server/Services.
pub mod Accounts
pub mod Conversations
pub mod Files
pub mod Perm
pub mod Router
pub mod Gate
pub mod Session
pub mod Signin
use chat.Base.{ℕ, Text}
use chat.Core.Jwt.{Keys}
use chat.Http.{Response, respond_with, error}
use chat.Server.Error.{AppError, Result, ok, err, panic, status_of, display}
use chat.Server.World.{Env, World}

pub record App : Type 0 where
  pub env : Env
  pub keys : Keys
  pub base_dir : Text

-- `AppError::into_response`
unfoldable pub into_response : Env → AppError → Response
into_response env e = respond_with (status_of e) (error (display env.sql_text e))

-- The response of a handler: an error becomes one, and a panic gives none.
abbrev pub finish : Env → Result AppError Response × World → Result Text Response × World
finish env (ok r, w) = (ok r, w)
finish env (err e, w) = (ok (into_response env e), w)
finish env (panic, w) = (panic, w)
