-- ===== src/Server/Sql/Messages.antt =====
-- The statements on the table `messages` with the trigger `add_to_message`:
-- chat_server/src/services/msg.rs and migrations/20240629094732_triggers.sql.
use chat.Base.{
  ◌+◌, ℤ, eq_ℤ, ltb_ℤ, Text, ◌&&◌, Option, none, some, List, ◌∷◌, [], ◌++◌, if◌then◌else◌, select,
  any, take,
}
use chat.Core.{Chat, Message}
use chat.Server.Models.{UserRow}
use chat.Server.Error.{
  unique_violation, foreign_key_violation, sequence_exhausted, negative_limit, payload_too_long, ok,
  err,
}
use chat.Server.World.{Statement, Env, chat_message_created}
use chat.Server.Sql.Rows.{nextval, sendable, order_desc, limit_of}
use chat.Server.Sql.Chats.{chat_by_id}

-- the trigger: the members of the message's chat, then `pg_notify`
unfoldable pub announce : Env → Message → Option Chat → Statement Message
announce env m none t = (err foreign_key_violation, t)
announce env m (some c) t =
    let n = chat_message_created m c.members in
    if sendable env n
    then (ok m, record t { messages = t.messages ++ m ∷ []; notices = t.notices ++ n ∷ [] })
    else (err payload_too_long, t)

-- the constraints (the primary key, the references to users and chats), then the trigger
unfoldable pub put_message : Env → Message → Statement Message
put_message env m t =
    if any (λ (x : Message). eq_ℤ x.id m.id) t.messages
    then (err unique_violation, t)
    else if any (λ (u : UserRow). eq_ℤ u.id m.sender_id) t.users
    then announce env m (chat_by_id m.chat_id t.chats) t
    else (err foreign_key_violation, t)

-- INSERT INTO messages (chat_id, sender_id, content, files) VALUES ($1, $2, $3, $4) RETURNING …
unfoldable pub insert_message : Env → ℤ → ℤ → Text → List Text → Statement Message
insert_message env chat_id sender_id content files t = elim (nextval t.messages_seq) [
  | none ↦ (err sequence_exhausted, t)
  | some id ↦
      put_message env
        (record {
          id = id;
          chat_id = chat_id;
          sender_id = sender_id;
          content = content;
          files = files;
          created_at = t.clock;
        })
        (record t { messages_seq = t.messages_seq + 1 })
]

-- the rows of a chat below an id, the newest first
unfoldable pub below_desc : ℤ → ℤ → List Message → List Message
below_desc chat_id last_id ms =
    order_desc (select (λ m. eq_ℤ m.chat_id chat_id && ltb_ℤ m.id last_id) ms)

-- SELECT … WHERE chat_id = $1 AND id < $2 ORDER BY id DESC LIMIT $3
unfoldable pub select_messages : ℤ → ℤ → ℤ → Statement (List Message)
select_messages chat_id last_id limit t = elim (limit_of limit) [
  | none ↦ (err negative_limit, t)
  | some n ↦ (ok (take n (below_desc chat_id last_id t.messages)), t)
]
