-- ===== src/Server/Interleaved/Calls.antt =====
-- The calls of UserService, ChatService and MsgService that write, cut at their accesses:
-- chat_server/src/services/{user,chat,msg}.rs.
use chat.Base.{
  ℕ, pos, eq_ℤ, as_i64, as_u64, Text, codes, Option, none, some, List, [], ◌∷◌, ◌==◌, length,
  if◌then◌else◌,
}
use chat.Core.{User, Chat, Message}
use chat.Server.Models.{CreateUser, CreateChat, UpdateChat, CreateMessage, Workspace, ChatUser}
use chat.Server.Error.{
  AppError, email_already_exists, create_chat_error, not_found, permission_deny, invalid_input,
}
use chat.Server.World.{Env, M, query}
use chat.Server.Sql.Users.{insert_user}
use chat.Server.Sql.Chats.{insert_chat, update_chat, delete_chat}
use chat.Server.Sql.Messages.{insert_message}
use chat.Server.Services.Users
use chat.Server.Services.Chats
use chat.Server.Services.Msgs
use chat.Server.Services.Ws
use chat.Server.Interleaved.{Call, returned, refused, ◌>>=◌}

unfoldable pub workspace_for : Text → Option Workspace → (Workspace → Call User) → Call User
workspace_for name (some ws) k = k ws
workspace_for name none k = Ws.create name 0 >>= k

unfoldable pub take_over : Workspace → User → Call User
take_over ws user =
    if eq_ℤ ws.owner_id (pos 0)
    then (Ws.update_owner ws (as_u64 user.id) >>= λ _. returned user)
    else returned user

unfoldable pub create_new : Env → CreateUser → Call User
create_new env input = do
  found ← Ws.find_by_name input.workspace
  workspace_for input.workspace found λ ws. do
    password_hash ← Users.hash_password env input.password
    user ← query (insert_user ws.id input.email input.fullname password_hash)
    take_over ws user

unfoldable pub create_user_unless : Env → CreateUser → Option User → Call User
create_user_unless env input none = create_new env input
create_user_unless env input (some _) = refused (email_already_exists input.email)

-- `UserService::create`
unfoldable pub create_user : Env → CreateUser → Call User
create_user env input = do user ← Users.find_by_email input.email; create_user_unless env input user

unfoldable pub create_chat_with : Env → CreateChat → ℕ → List ChatUser → Call Chat
create_chat_with env input ws_id users =
    let len = length input.members in
    if length users == len
    then (query (
          insert_chat env (as_i64 ws_id) input.name (Chats.chat_type input.name len input.public)
            input.members)
        >>= returned)
    else refused (create_chat_error (codes "Some members do not exist"))

unfoldable pub create_chat_unless : Env → CreateChat → ℕ → Option AppError → Call Chat
create_chat_unless env input ws_id (some e) = refused e
create_chat_unless env input ws_id none = do
  users ← Users.fetch_by_ids env input.members
  create_chat_with env input ws_id users

-- `ChatService::create`
unfoldable pub create_chat : Env → CreateChat → ℕ → Call Chat
create_chat env input ws_id = create_chat_unless env input ws_id (Chats.refusal input)

unfoldable pub within : ℕ → M Chat → Option Chat → Call Chat
within ws_id act none = refused (not_found (codes "chat id not found"))
within ws_id act (some chat) =
    if as_u64 chat.ws_id == ws_id then (act >>= returned) else refused permission_deny

-- `ChatService::update`
unfoldable pub update : Env → UpdateChat → (ws_id chat_id : ℕ) → Call Chat
update env input ws_id chat_id = do
  chat ← Chats.get_by_id chat_id
  within ws_id (query (update_chat env input.name (as_i64 chat_id))) chat

-- `ChatService::delete`
unfoldable pub delete : Env → (ws_id chat_id : ℕ) → Call Chat
delete env ws_id chat_id = do
  chat ← Chats.get_by_id chat_id
  within ws_id (query (delete_chat env (as_i64 chat_id))) chat

-- the loop over the files, one look at the disk for each
unfoldable pub check_files : Env → Text → List Text → Call Message → Call Message
check_files env base_dir [] k = k
check_files env base_dir (url ∷ urls) k =
    Msgs.check_file env base_dir url >>= λ _. check_files env base_dir urls k

unfoldable pub create_message_with :
    Env → Text → CreateMessage → Text → (chat_id user_id : ℕ) → Call Message
create_message_with env base_dir input [] chat_id user_id =
    refused (invalid_input (codes "content is empty"))
create_message_with env base_dir input (c ∷ s) chat_id user_id =
    check_files env base_dir input.files (
      query (insert_message env (as_i64 chat_id) (as_i64 user_id) (c ∷ s) input.files) >>= returned)

-- `MsgService::create`
unfoldable pub create_message : Env → Text → CreateMessage → (chat_id user_id : ℕ) → Call Message
create_message env base_dir input chat_id user_id =
    create_message_with env base_dir input input.content chat_id user_id
