-- ===== src/Suite/Messages.antt =====
-- The tests of chat_server/src/services/msg.rs.
use chat.Base.{
  ℕ, ◌≡◌, refl, as_u64, text_eq, Text, codes, Bool, true, false, ◌&&◌, ◌==◌, Option, none, some,
  List, [], ◌∷◌, length, All,
}
use chat.Core.{Message}
use chat.Server.Error.{AppError, display}
use chat.Server.Models.{CreateMessage, ListMessageOption}
use chat.Server.World.{Env, M, pure, ◌>>=◌, ◌>>◌}
use chat.Server.ChatFile
use chat.Server.Handlers.Files.{write}
use chat.Server.Services.Msgs.{create, list}
use chat.Suite.{passes, refuses, unwrap}
use chat.Suite.Fixture.{get_test_pool, test_env}

-- the directory that `tempdir` makes
abbrev basedir : Text
basedir = codes "/tmp/dir"

-- `CreateMessage::new`
abbrev pub message_input : Text → List Text → CreateMessage
message_input content files = record { content = content; files = files }

-- `ListMessageOption::new`
abbrev pub list_input : Option ℕ → ℕ → ListMessageOption
list_input last_id limit = record { last_id = last_id; limit = limit }

unfoldable pub upload_dummy_file : Env → Text → M Text
upload_dummy_file env base_dir =
    let chat_file = ChatFile.new env 1 (codes "dummy.txt") (codes "hello world") in
    do
      file_path ← unwrap (ChatFile.path base_dir chat_file)
      _ ← write env file_path (codes "hello world")
      unwrap (ChatFile.url chat_file)

abbrev pub same_files : List Text → List Text → Bool
same_files [] [] = true
same_files (a ∷ xs) (b ∷ ys) = text_eq a b && same_files xs ys
same_files [] (b ∷ ys) = false
same_files (a ∷ xs) [] = false

unfoldable pub create_message_should_work : Env → Bool
create_message_should_work env =
    passes
      (do
        url ← upload_dummy_file env basedir
        message ← create env basedir (message_input (codes "hello world") (url ∷ [])) 1 1
        pure (text_eq message.content (codes "hello world") && same_files message.files (url ∷ [])))
      (get_test_pool env)

-- the error's `to_string`
abbrev says_invalid : Env → AppError → Bool
says_invalid env e = text_eq (display env.sql_text e) (codes "invalid input: file path")

unfoldable pub create_message_with_invalid_file_should_fail : Env → Bool
create_message_with_invalid_file_should_fail env =
    passes
      (refuses (says_invalid env) (
        create env basedir (message_input (codes "hello world") (codes "invalid_file.txt" ∷ [])) 1
          1))
      (get_test_pool env)

-- `messages.last()`
abbrev last : List Message → Option Message
last [] = none
last (m ∷ []) = some m
last (m ∷ x ∷ ms) = last (x ∷ ms)

unfoldable pub list_message_should_work : Env → Bool
list_message_should_work env =
    passes
      (do
        newest ← list (list_input none 6) 1
        oldest ← unwrap (last newest)
        before ← list (list_input (some (as_u64 oldest.id)) 6) 1
        pure (length newest == 6 && length before == 4))
      (get_test_pool env)

-- every test of the file passes
message_tests :
    All
      (λ (test : Env → Bool). test test_env ≡ true)
      (create_message_should_work ∷ create_message_with_invalid_file_should_fail
        ∷ list_message_should_work ∷ [])
unfolding create_message_should_work create_message_with_invalid_file_should_fail
    list_message_should_work upload_dummy_file display write chat.Server.Handlers.Files.parents
    chat.Suite.passes chat.Suite.refuses chat.Suite.unwrap chat.Suite.same_type chat.Suite.same_name
    get_test_pool chat.Suite.Fixture.fixture chat.Suite.Fixture.execute chat.Server.World.◌>>=◌
    chat.Server.World.query chat.Server.Sql.Rows.nextval chat.Server.Sql.Rows.drop_chars
    chat.Server.Sql.Rows.fit chat.Server.Sql.Rows.fit_null chat.Server.Sql.Rows.take_chars
    chat.Server.Sql.Workspaces.insert_workspace chat.Server.Sql.Workspaces.put_workspace
    chat.Server.Sql.Workspaces.workspace_row chat.Server.Sql.Users.insert_user
    chat.Server.Sql.Users.put_user chat.Server.Sql.Users.user_row chat.Server.Sql.Chats.insert_chat
    chat.Server.Sql.Chats.put_chat chat.Server.Sql.Chats.chat_row chat.Server.Sql.Chats.chat_by_id
    chat.Server.Sql.Chats.notify chat.Server.Sql.Messages.insert_message
    chat.Server.Sql.Messages.put_message chat.Server.Sql.Messages.announce chat.Base.as_i64
    chat.Base.as_u64 chat.Server.ChatFile.from_str chat.Server.ChatFile.parse_url
    chat.Strings.strip_prefix chat.Strings.split chat.Strings.parse_u64 chat.Strings.scan_some
    chat.Strings.scan chat.Server.ChatFile.path chat.Server.ChatFile.hash_to_path
    chat.Strings.split_at chat.Strings.emit chat.Strings.join chat.Strings.to_text
    chat.Server.ChatFile.new chat.Server.ChatFile.extension chat.Strings.rsplit_once
    chat.Server.ChatFile.url chat.Server.World.◌>>◌ chat.Server.Services.Msgs.create
    chat.Server.Services.Msgs.create_with chat.Server.Services.Msgs.check_files
    chat.Server.Services.Msgs.check_file chat.Server.Services.Msgs.lift
    chat.Server.Services.Msgs.check_path chat.Server.Services.Msgs.exists
    chat.Server.Services.Msgs.list chat.Server.Sql.Messages.select_messages
    chat.Server.Sql.Messages.below_desc chat.Server.Sql.Rows.order_desc chat.Server.Sql.Rows.place
message_tests = (refl, (refl, (refl, tt)))
