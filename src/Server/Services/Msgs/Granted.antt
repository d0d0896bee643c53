-- ===== src/Server/Services/Msgs/Granted.antt =====
-- When `MsgService::create` (chat_server/src/services/msg.rs) stores a message.
use chat.Base.{
  ℕ, ◌+◌, ◌≤◌, ◌≡◌, ◌≢◌, refl, ap, ◌∙◌, pos, eq_ℤ_iff, true, false, some, List, [], ◌∷◌, ◌++◌,
  arith, as_i64, i64_max, has_key, All, Text,
}
use chat.Core.{Chat, Message}
use chat.Server.Error.{SqlError, Result, ok}
use chat.Server.Models.{CreateMessage}
use chat.Server.World.{Env, World, Tables, chat_message_created, query, lift_sql, ◌>>=◌, ◌>>◌}
use chat.Server.World.Triples.{query_up}
use chat.Server.Sql.Chats.{chat_by_id}
use chat.Server.Sql.Messages.{insert_message, put_message, announce}
use chat.Server.Sql.Rows.{sendable}
use chat.Server.Services.Chats.Granted.{nextval_issued}
use chat.Server.Services.Msgs.{
  create, create_with, check_files, check_file, check_path, exists, lift,
}
use chat.Server.Services.Msgs.Attached.{IsOnDisk}
use chat.Server.Invariant.{IsValid, IsIssued, user_key, message_key}

check_file_there :
    (env : Env) (base_dir url : Text) (w : World)
    → IsOnDisk env base_dir w url
    → check_file env base_dir url w ≡ (ok tt, w)
unfolding check_file check_path exists lift ◌>>=◌
check_file_there env base_dir url w (f, p, e, h, t) = rw (e, h, t) refl

check_files_there :
    (env : Env) (base_dir : Text) (urls : List Text) (w : World)
    → All (IsOnDisk env base_dir w) urls
    → check_files env base_dir urls w ≡ (ok tt, w)
unfolding check_files ◌>>◌ ◌>>=◌
check_files_there env base_dir [] w h = refl
check_files_there env base_dir (url ∷ urls) w h =
    rw (check_file_there env base_dir url w h.0) (check_files_there env base_dir urls w h.1)

-- the row that the request gives
abbrev pub message_made : CreateMessage → (chat_id user_id : ℕ) → Tables → Message
message_made input chat_id user_id t = record {
  id = pos t.messages_seq;
  chat_id = as_i64 chat_id;
  sender_id = as_i64 user_id;
  content = input.content;
  files = input.files;
  created_at = t.clock;
}

-- the tables with it, when `c` is its chat
abbrev pub with_message : Message → Chat → Tables → Tables
with_message m c t = record t {
  messages = t.messages ++ m ∷ [];
  messages_seq = t.messages_seq + 1;
  notices = t.notices ++ chat_message_created m c.members ∷ [];
}

-- the next id of the sequence is no message's
pub message_fresh :
    (n : ℕ) (ms : List Message)
    → All (λ (m : Message). IsIssued n m.id) ms
    → has_key message_key (pos n) ms ≡ false
message_fresh n [] h = refl
message_fresh n (m ∷ ms) h =
    let (k, e, l) = h.0 in ground (arith, message_fresh n ms h.1, eq_ℤ_iff m.id (pos n))

put_message_added :
    (env : Env) (m : Message) (c : Chat) (t : Tables)
    → has_key message_key m.id t.messages ≡ false
    → has_key user_key m.sender_id t.users ≡ true
    → chat_by_id m.chat_id t.chats ≡ some c
    → sendable env (chat_message_created m c.members) ≡ true
    → put_message env m t ≡ (
      ok m,
      record t {
        messages = t.messages ++ m ∷ [];
        notices = t.notices ++ chat_message_created m c.members ∷ [];
      },
    )
unfolding put_message announce
put_message_added env m c t fresh known there short = rw (fresh, known, there, short) refl

insert_message-made :
    (env : Env) (input : CreateMessage) (chat_id user_id : ℕ) (c : Chat) (t : Tables)
    → IsValid t
    → t.messages_seq ≤ i64_max
    → has_key user_key (as_i64 user_id) t.users ≡ true
    → chat_by_id (as_i64 chat_id) t.chats ≡ some c
    → sendable env (chat_message_created (message_made input chat_id user_id t) c.members) ≡ true
    → insert_message env (as_i64 chat_id) (as_i64 user_id) input.content input.files t ≡ (
      ok (message_made input chat_id user_id t),
      with_message (message_made input chat_id user_id t) c t,
    )
unfolding insert_message as_i64
insert_message-made env input chat_id user_id c t v room known there short =
    rw (nextval_issued t.messages_seq room, insert_message)
      (put_message_added env (message_made input chat_id user_id t) c
        (record t { messages_seq = t.messages_seq + 1 })
        (message_fresh t.messages_seq t.messages v.issued) known there short)

inserted_up :
    (env : Env) (base_dir : Text) (input : CreateMessage) (chat_id user_id : ℕ) (w : World)
    → input.content ≢ []
    → All (IsOnDisk env base_dir w) input.files
    → create env base_dir input chat_id user_id w
      ≡ query (insert_message env (as_i64 chat_id) (as_i64 user_id) input.content input.files) w
unfolding create
inserted_up env base_dir input chat_id user_id w n h = with_content input.content n
  where
    with_content :
        (content : Text)
        → content ≢ []
        → create_with env base_dir input content chat_id user_id w
          ≡ query (insert_message env (as_i64 chat_id) (as_i64 user_id) content input.files) w
    with_content [] n = absurd (n refl)
    with_content (c ∷ s) n =
        unfold create_with in
        unfold ◌>>◌ in unfold ◌>>=◌ in rw (check_files_there env base_dir input.files w h) refl

-- With its statement answered, from a valid state, `create` stores the message that is asked for if
-- its content is not empty, its files are on the disk, its sender and its chat are stored, the sequence
-- has an id left, and the notification is short enough: the result is the message, under that id, and
-- the only changes are its row, its notification to the members of the chat, and the next id.
pub create-message_made :
    (env : Env) (base_dir : Text) (input : CreateMessage) (chat_id user_id : ℕ) (w : World)
    (c : Chat)
    → IsValid w.tables
    → w.link ≡ []
    → input.content ≢ []
    → All (IsOnDisk env base_dir w) input.files
    → has_key user_key (as_i64 user_id) w.tables.users ≡ true
    → chat_by_id (as_i64 chat_id) w.tables.chats ≡ some c
    → w.tables.messages_seq ≤ i64_max
    → sendable env (chat_message_created (message_made input chat_id user_id w.tables) c.members)
      ≡ true
    → create env base_dir input chat_id user_id w ≡ (
      ok (message_made input chat_id user_id w.tables),
      record w { tables = with_message (message_made input chat_id user_id w.tables) c w.tables },
    )
create-message_made env base_dir input chat_id user_id w c v up content files known there room
      short =
    inserted_up env base_dir input chat_id user_id w content files
    ∙ query_up _ w up
    ∙ ap (λ (r : Result SqlError Message × Tables). (lift_sql r.0, record w { tables = r.1 }))
        (insert_message-made env input chat_id user_id c w.tables v room known there short)
