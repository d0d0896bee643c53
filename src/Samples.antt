-- ===== src/Samples.antt =====
-- A small database, an environment and an app, on which the tests run.
use chat.Base.{pos, codes, text_eq, none, some, [], ◌∷◌}
use chat.Core.{User, Chat, Message, single}
use chat.Core.Jwt.{Keys, serialized}
use chat.Server.Error.{ok}
use chat.Server.Models.{UserRow, Workspace}
use chat.Server.World.{Env, World, Tables}
use chat.Server.Handlers.{App}

abbrev pub some_env : Env
some_env = record {
  payload_bytes = λ n. 100;
  scan_users = λ us. us;
  scan_chats = λ cs. cs;
  argon2_hash = λ password salt. ok password;
  argon2_parse = λ hash. ok hash;
  argon2_verify = λ password parsed. text_eq password parsed;
  salt = λ n. codes "salt";
  sha1_hex = λ bytes. codes "abcdef0123";
  resolve = λ p. p;
  write_error = λ p. none;
  open_error = λ p. none;
  mime = λ p. codes "text/plain";
  header_value = λ v. some v;
  sql_text = λ e. codes "sql";
}

abbrev pub alice : UserRow
alice = record {
  id = pos 1;
  ws_id = pos 1;
  fullname = codes "Alice";
  email = codes "a@x.org";
  password_hash = codes "secret";
  created_at = 0;
}

abbrev pub bob : UserRow
bob = record alice { id = pos 2; fullname = codes "Bob"; email = codes "b@x.org" }

abbrev pub acme : Workspace
acme = record { id = pos 1; name = codes "acme"; owner_id = pos 1; created_at = 0 }

abbrev pub talk : Chat
talk = record {
  id = pos 1;
  ws_id = pos 1;
  name = none;
  type = single;
  members = pos 1 ∷ pos 2 ∷ [];
  created_at = 0;
}

abbrev pub hello : Message
hello = record {
  id = pos 1;
  chat_id = pos 1;
  sender_id = pos 1;
  content = codes "hello";
  files = [];
  created_at = 0;
}

abbrev pub again : Message
again = record hello { id = pos 2; content = codes "again" }

abbrev pub few_rows : Tables
few_rows = record {
  users = alice ∷ bob ∷ [];
  workspaces = acme ∷ [];
  chats = talk ∷ [];
  messages = hello ∷ again ∷ [];
  users_seq = 3;
  workspaces_seq = 2;
  chats_seq = 2;
  messages_seq = 3;
  clock = 7;
  notices = [];
}

abbrev pub quiet : World
quiet = record { tables = few_rows; link = []; disk = []; drawn = 0 }

-- a user as the token carries them, who is in no chat
abbrev pub carol : User
carol = record {
  id = pos 3;
  ws_id = pos 2;
  fullname = codes "Carol";
  email = codes "c@x.org";
  password_hash = none;
  created_at = 0;
}

-- keys that sign every claim as the token "carol", which verifies to her only
abbrev pub some_keys : Keys
some_keys = record {
  sign_claims = λ c. ok (codes "carol");
  verify_claims = λ token o. ok (record {
    custom = serialized carol;
    valid_for = 1;
    issuer = o.allowed_issuer;
    audience = o.allowed_audience;
  });
}

abbrev pub some_app : App
some_app = record { env = some_env; keys = some_keys; base_dir = codes "/tmp" }
