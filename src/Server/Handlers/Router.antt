-- ===== src/Server/Handlers/Router.antt =====
-- `get_router`: chat_server/src/lib.rs. A request is its route, with the parameters that axum has
-- parsed, and its two places for a token. Each route has the layers that the router puts on it.
use chat.Base.{ℕ, Text, codes, Option, List}
use chat.Core.{User}
use chat.Core.Jwt
use chat.Core.Auth.{verify_token_v2}
use chat.Http.{Response, respond_with, text}
use chat.Server.Error.{Result, ok, panic}
use chat.Server.Models.{
  CreateUser, SigninUser, CreateChat, UpdateChat, CreateMessage, ListMessageOption,
}
use chat.Server.World.{M, World}
use chat.Server.Handlers.{App, finish}
use chat.Server.Handlers.Accounts.{signup_handler, signin_handler, list_chat_users_handler}
use chat.Server.Handlers.Conversations.{
  list_chat_handler, create_chat_handler, get_chat_handler, update_chat_handler,
  delete_chat_handler, send_message_handler, list_message_handler,
}
use chat.Server.Handlers.Files.{Field, file_handler, upload_handler}
use chat.Server.Handlers.Perm.{verify_chat_perm}

-- the routes under "/chats/:id", which have the layer `verify_chat_perm`
pub data ChatRoute : Type 0 where
  get_chat delete_chat : ChatRoute
  update_chat : UpdateChat → ChatRoute
  send_message : CreateMessage → ChatRoute
  list_messages : ListMessageOption → ChatRoute

-- the routes with the layer `verify_token_v2`
pub data UserRoute : Type 0 where
  list_users list_chats : UserRoute
  create_chat : CreateChat → UserRoute
  on_chat : (chat_id : ℕ) → ChatRoute → UserRoute
  upload : List Field → UserRoute
  get_file : (ws_id : ℕ) → Text → UserRoute

pub data Route : Type 0 where
  index : Route
  signup : CreateUser → Route
  signin : SigninUser → Route
  with_token : (bearer query : Option Text) → UserRoute → Route

unfoldable pub chat_handler : App → User → (chat_id : ℕ) → ChatRoute → M Response
chat_handler app user chat_id get_chat = get_chat_handler app chat_id
chat_handler app user chat_id delete_chat = delete_chat_handler app user chat_id
chat_handler app user chat_id (update_chat input) = update_chat_handler app user chat_id input
chat_handler app user chat_id (send_message input) = send_message_handler app user chat_id input
chat_handler app user chat_id (list_messages input) = list_message_handler app chat_id input

abbrev run : App → M Response → World → Result Text Response × World
run app m w = finish app.env (m w)

unfoldable pub user_handler : App → User → UserRoute → World → Result Text Response × World
user_handler app user list_users = run app (list_chat_users_handler app user)
user_handler app user list_chats = run app (list_chat_handler app user)
user_handler app user (create_chat input) = run app (create_chat_handler app user input)
user_handler app user (on_chat chat_id route) =
    verify_chat_perm app chat_id user (run app (chat_handler app user chat_id route))
user_handler app user (upload fields) = run app (upload_handler app user fields)
user_handler app user (get_file ws_id path) = run app (file_handler app user ws_id path)

-- `TokenVerify::verify_token` of `AppState`, its error as `{:?}` shows it
unfoldable pub verify_app_token : App → Text → Result Text User
verify_app_token app token = Jwt.verify app.keys token

abbrev answer : Response → World → Result Text Response × World
answer r w = (ok r, w)

abbrev crash : World → Result Text Response × World
crash w = (panic, w)

unfoldable pub route : App → Route → World → Result Text Response × World
route app index = answer (respond_with 200 (text (codes "index")))
route app (signup input) = run app (signup_handler app input)
route app (signin input) = run app (signin_handler app input)
route app (with_token bearer query r) =
    verify_token_v2 answer crash (verify_app_token app) bearer query
      (λ user. user_handler app user r)
