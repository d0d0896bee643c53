-- ===== src/Suite/Fixture.antt =====
-- The test database: `get_test_pool` of chat_server/src/lib.rs, which executes
-- chat_server/fixtures/test.sql after the migrations, and the argon2 of the tests.
use chat.Base.{ℕ, pos, Text, text_eq, codes, ◌||◌, ◌&&◌, Option, none, some, [], ◌∷◌, ◌++◌, take}
use chat.Core.{single, group, private_channel, public_channel, Time}
use chat.Samples.{some_env}
use chat.Server.Error.{ok, err, panic}
use chat.Server.Models.{UserRow, Workspace}
use chat.Server.World.{Env, World, Tables, Statement}
use chat.Server.Sql.Users.{insert_user}
use chat.Server.Sql.Workspaces.{insert_workspace}
use chat.Server.Sql.Chats.{insert_chat}
use chat.Server.Sql.Messages.{insert_message}

-- the rows with id 0 that the migrations put in
abbrev pub super_user : UserRow
super_user = record {
  id = pos 0;
  ws_id = pos 0;
  fullname = codes "super user";
  email = codes "super@none.org";
  password_hash = [];
  created_at = 0;
}

abbrev pub none_workspace : Workspace
none_workspace = record { id = pos 0; name = codes "none"; owner_id = pos 0; created_at = 0 }

abbrev pub migrated : Tables
migrated = record {
  users = super_user ∷ [];
  workspaces = none_workspace ∷ [];
  chats = [];
  messages = [];
  users_seq = 1;
  workspaces_seq = 1;
  chats_seq = 1;
  messages_seq = 1;
  clock = 0;
  notices = [];
}

-- `ts.execute(sql).await.expect(…)`; `none` is the panic
unfoldable pub execute : {A : Type 0} → Statement A → Option Tables → Option Tables
execute s none = none
execute s (some t) = elim (s t).0 [ ok a ↦ some (s t).1 | err e ↦ none | panic ↦ none ]

-- the hash of 'Hunter48'
abbrev pub hunter_hash : Text
hunter_hash =
    codes
      "$argon2id$v=19$m=19456,t=2,p=1$B6zbATA/ttJCTVa/P8eJDQ$AwNAtiAxjDFO59RDB4xI2bxD++/eaIFKEkdGaPvVvak"

abbrev jack : Text → Statement chat.Core.User
jack name = insert_user (pos 1) (name ++ codes "@gmail.com") name hunter_hash

abbrev says : Env → ℕ → Text → Statement chat.Core.Message
says env sender content = insert_message env (pos 1) (pos sender) content []

-- the statements of test.sql, the last one first
unfoldable pub fixture : Env → Option Tables
fixture env = execute (says env 1 (codes "Hello, world!")) (
    execute (says env 1 (codes "Hello, world!")) (
      execute (says env 3 (codes "How are you?")) (
        execute (says env 2 (codes "Hi, there!")) (
          execute (says env 1 (codes "Hello, world!")) (
            execute (says env 5 (codes "Good to hear that!")) (
              execute (says env 4 (codes "I am fine, thank you!")) (
                execute (says env 3 (codes "How are you?")) (
                  execute (says env 2 (codes "Hi, there!"))
                    (execute (says env 1 (codes "Hello, world!")) (chats env))))))))))
  where
    workspaces : Option Tables
    workspaces = execute (insert_workspace (codes "ws3") (pos 0)) (
        execute (insert_workspace (codes "ws2") (pos 0))
          (execute (insert_workspace (codes "ws1") (pos 0)) (some migrated)))

    users : Option Tables
    users = execute (jack (codes "jack5")) (
        execute (jack (codes "jack4")) (
          execute (jack (codes "jack3"))
            (execute (jack (codes "jack2")) (execute (jack (codes "jack1")) workspaces))))

    chats : Env → Option Tables
    chats env = execute (insert_chat env (pos 1) none group (pos 1 ∷ pos 3 ∷ pos 4 ∷ [])) (
        execute (insert_chat env (pos 1) none single (pos 1 ∷ pos 2 ∷ [])) (
          execute
            (insert_chat env (pos 1) (some (codes "private")) private_channel
              (pos 1 ∷ pos 2 ∷ pos 3 ∷ []))
            (execute
              (insert_chat env (pos 1) (some (codes "general")) public_channel
                (pos 1 ∷ pos 2 ∷ pos 3 ∷ pos 4 ∷ pos 5 ∷ []))
              users)))

abbrev tables_or : Tables → Option Tables → Tables
tables_or t none = t
tables_or t (some u) = u

-- `get_test_pool`: a database of its own for each test
unfoldable pub get_test_pool : Env → World
get_test_pool env = record {
  tables = tables_or migrated (fixture env);
  link = [];
  disk = [];
  drawn = 0;
}

-- a hash of 97 bytes that begins with the password
abbrev digest : Text → Text
digest password = take 97 (password ++ hunter_hash)

abbrev pub test_env : Env
test_env = record some_env {
  argon2_hash = λ password salt. ok (digest password);
  argon2_verify = λ password parsed.
      text_eq parsed (digest password)
      || (text_eq parsed hunter_hash && text_eq password (codes "Hunter48"));
  sha1_hex = λ bytes. codes "2aae6c35c94fcfb415dbe95f408b9ce91ee846ed";
}
