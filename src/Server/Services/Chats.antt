-- ===== src/Server/Services/Chats.antt =====
-- `ChatService`: chat_server/src/services/chat.rs.
pub mod Kinds
pub mod Creation
pub mod Guards
pub mod Renaming
pub mod Membership
pub mod Granted
use chat.Base.{
  ℕ, ℤ, as_u64, as_i64, Text, codes, Bool, true, false, not, ◌&&◌, Option, none, some, List, ltb,
  ◌==◌, if◌then◌else◌, is_none, is_some, length,
}
use chat.Core.{Chat, ChatType, single, group, private_channel, public_channel}
use chat.Server.Models.{CreateChat, UpdateChat, ChatUser}
use chat.Server.Error.{AppError, create_chat_error, permission_deny, not_found}
use chat.Server.World.{M, Env, query, pure, raise, ◌>>=◌}
use chat.Server.Sql.Chats.{
  select_chat, select_chats_by_ws, select_membership, insert_chat, update_chat, delete_chat,
}
use chat.Server.Services.Users

-- the type of a chat, from its name, its number of members and `public`
unfoldable pub chat_type : Option Text → ℕ → Bool → ChatType
chat_type none len public = if len == 2 then single else group
chat_type (some _) len public = if public then public_channel else private_channel

-- the match on the number of members: the refusal that it gives, if any
unfoldable pub refusal : CreateChat → Option AppError
refusal input =
    let len = length input.members in
    if ltb len 2
    then some (create_chat_error (codes "Chat must have at least 2 members"))
    else if ltb 8 len && is_none input.name
    then some (create_chat_error (codes "Group chat with more than 8 members must have a name"))
    else none

-- what `create` does with the members that it has found
unfoldable pub create_with : Env → CreateChat → ℕ → List ChatUser → M Chat
create_with env input ws_id users =
    let len = length input.members in
    if length users == len
    then query (
        insert_chat env (as_i64 ws_id) input.name (chat_type input.name len input.public)
          input.members)
    else raise (create_chat_error (codes "Some members do not exist"))

unfoldable pub create_unless : Env → CreateChat → ℕ → Option AppError → M Chat
create_unless env input ws_id (some e) = raise e
create_unless env input ws_id none = do
  users ← Users.fetch_by_ids env input.members
  create_with env input ws_id users

-- `ChatService::create`
unfoldable pub create : Env → CreateChat → ℕ → M Chat
create env input ws_id = create_unless env input ws_id (refusal input)

unfoldable pub get_by_id : ℕ → M (Option Chat)
get_by_id id = query (select_chat (as_i64 id))

-- the guard that `update` and `delete` share, in front of what they do
unfoldable pub within : ℕ → M Chat → Option Chat → M Chat
within ws_id act none = raise (not_found (codes "chat id not found"))
within ws_id act (some chat) = if as_u64 chat.ws_id == ws_id then act else raise permission_deny

-- `ChatService::update`
unfoldable pub update : Env → UpdateChat → (ws_id chat_id : ℕ) → M Chat
update env input ws_id chat_id = do
  chat ← get_by_id chat_id
  within ws_id (query (update_chat env input.name (as_i64 chat_id))) chat

-- `ChatService::delete`
unfoldable pub delete : Env → (ws_id chat_id : ℕ) → M Chat
delete env ws_id chat_id = do
  chat ← get_by_id chat_id
  within ws_id (query (delete_chat env (as_i64 chat_id))) chat

unfoldable pub fetch_all : Env → ℕ → M (List Chat)
fetch_all env ws_id = query (select_chats_by_ws env (as_i64 ws_id))

unfoldable pub is_chat_member : (chat_id user_id : ℕ) → M Bool
is_chat_member chat_id user_id = do
  row ← query (select_membership (as_i64 chat_id) (as_i64 user_id))
  pure (is_some row)
