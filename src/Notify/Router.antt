-- ===== src/Notify/Router.antt =====
-- The routes of the notify server and its errors: notify_server/src/lib.rs and error.rs.
use chat.Base.{ℕ, Text, codes, Option, ◌++◌}
use chat.Core.{User}
use chat.Core.Jwt
use chat.Core.Jwt.{Keys}
use chat.Core.Auth.{verify_token_v2}
use chat.Http.{Response, respond_with, text, error}
use chat.Server.Error.{Result}
use chat.Notify.Sse.{UserMap, sse_handler}

pub data AppError : Type 0 where
  io_error jwt_error : Text → AppError

unfoldable pub status_of : AppError → ℕ
status_of (jwt_error _) = 403
status_of (io_error _) = 500

unfoldable pub display : AppError → Text
display (io_error e) = codes "io error: " ++ e
display (jwt_error e) = codes "jwt error: " ++ e

-- `AppError::into_response`
unfoldable pub into_response : AppError → Response
into_response e = respond_with (status_of e) (error (display e))

-- `TokenVerify::verify_token` of `AppState`, its error as `{:?}` shows it
unfoldable pub verify_token : Keys → Text → Result Text User
verify_token keys token = Jwt.verify keys token

pub data Route : Type 0 where
  index : Route
  events : (bearer query : Option Text) → Route

-- A response, or a stream of what a sender sends.
pub data Outcome : Type 0 where
  responded : Response → Outcome
  listening : (tx : ℕ) → Outcome
  crashed : Outcome

abbrev subscribe : (fresh : ℕ) → User → UserMap → Outcome × UserMap
subscribe fresh user users =
    let (tx, users') = sse_handler user fresh users in (listening tx, users')

-- `get_router`; `html` is the file index.html
unfoldable pub route : Keys → (html : Text) → (fresh : ℕ) → Route → UserMap → Outcome × UserMap
route keys html fresh index users = (responded (respond_with 200 (text html)), users)
route keys html fresh (events bearer query) users =
    verify_token_v2 (λ r us. (responded r, us)) (λ us. (crashed, us)) (verify_token keys) bearer
      query (subscribe fresh) users
