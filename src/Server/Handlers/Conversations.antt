-- ===== src/Server/Handlers/Conversations.antt =====
-- Chats and messages: chat_server/src/handlers/chat.rs, and the first two handlers of messages.rs.
use chat.Base.{ℕ, as_u64, codes, Option, none, some}
use chat.Core.{User, Chat}
use chat.Http.{Response, respond_with, one_chat, all_chats, one_message, all_messages}
use chat.Server.Error.{not_found}
use chat.Server.Models.{CreateChat, UpdateChat, CreateMessage, ListMessageOption}
use chat.Server.World.{M, pure, raise, ◌>>=◌}
use chat.Server.Services.Chats
use chat.Server.Services.Msgs
use chat.Server.Handlers.{App}

unfoldable pub list_chat_handler : App → User → M Response
list_chat_handler app user = do
  chats ← Chats.fetch_all app.env (as_u64 user.ws_id)
  pure (respond_with 200 (all_chats chats))

unfoldable pub create_chat_handler : App → User → CreateChat → M Response
create_chat_handler app user input = do
  c ← Chats.create app.env input (as_u64 user.ws_id)
  pure (respond_with 201 (one_chat c))

unfoldable pub found_chat : Option Chat → M Response
found_chat none = raise (not_found (codes "chat id not found"))
found_chat (some c) = pure (respond_with 200 (one_chat c))

unfoldable pub get_chat_handler : App → (chat_id : ℕ) → M Response
get_chat_handler app chat_id = do found ← Chats.get_by_id chat_id; found_chat found

unfoldable pub update_chat_handler : App → User → (chat_id : ℕ) → UpdateChat → M Response
update_chat_handler app user chat_id input = do
  c ← Chats.update app.env input (as_u64 user.ws_id) chat_id
  pure (respond_with 200 (one_chat c))

unfoldable pub delete_chat_handler : App → User → (chat_id : ℕ) → M Response
delete_chat_handler app user chat_id = do
  c ← Chats.delete app.env (as_u64 user.ws_id) chat_id
  pure (respond_with 200 (one_chat c))

unfoldable pub send_message_handler : App → User → (chat_id : ℕ) → CreateMessage → M Response
send_message_handler app user chat_id input = do
  m ← Msgs.create app.env app.base_dir input chat_id (as_u64 user.id)
  pure (respond_with 201 (one_message m))

unfoldable pub list_message_handler : App → (chat_id : ℕ) → ListMessageOption → M Response
list_message_handler app chat_id input = do
  ms ← Msgs.list input chat_id
  pure (respond_with 200 (all_messages ms))
