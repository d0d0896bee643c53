-- ===== src/Server/Invariant/Messages.antt =====
-- The invariant and the insertion of chat_server/src/services/msg.rs.
use chat.Base.{
  ℕ, ◌+◌, ◌≡◌, refl, ℤ, pos, Text, true, false, Option, none, some, List, [], ◌∷◌, ◌++◌, All,
  All-append, arith, has_key, DistinctKeys-snoc, All-weaken, Bool-cases, Option-cases, inl, inr,
}
use chat.Core.{Chat, Message}
use chat.Server.World.{Tables, Env, Notice, chat_message_created}
use chat.Server.Sql.Messages.{insert_message, put_message, announce}
use chat.Server.Sql.Chats.{chat_by_id}
use chat.Server.Sql.Rows.{nextval, sendable}
use chat.Server.Invariant.{IsValid, IsIssued, user_key, chat_key, message_key}

pub has_key_of_chat_by_id :
    (id : ℤ) (cs : List Chat) (c : Chat) → chat_by_id id cs ≡ some c → has_key chat_key id cs ≡ true
unfolding chat_by_id
has_key_of_chat_by_id id [] c e = cc
has_key_of_chat_by_id id (x ∷ cs) c e = ground (arith, has_key_of_chat_by_id id cs c)

IsIssued-later :
    (n : ℕ) (ms : List Message)
    → All (λ m. IsIssued n m.id) ms
    → All (λ m. IsIssued (n + 1) m.id) ms
IsIssued-later n ms h =
    All-weaken (λ m. IsIssued n m.id) _ (λ m (k, e, l). (k, e, omega arith)) ms h

IsValid-messages_seq :
    (t : Tables) → IsValid t → IsValid (record t { messages_seq = t.messages_seq + 1 })
IsValid-messages_seq t v = record {
  users_once = v.users_once;
  chats_once = v.chats_once;
  messages_once = v.messages_once;
  rosters = v.rosters;
  owners = v.owners;
  homes = v.homes;
  threads = v.threads;
  issued = IsIssued-later t.messages_seq t.messages v.issued;
}

IsValid-add_message :
    (t : Tables) (m : Message) (ns : List Notice)
    → IsValid t
    → m.id ≡ pos t.messages_seq
    → has_key message_key m.id t.messages ≡ false
    → has_key chat_key m.chat_id t.chats ≡ true
    → IsValid (record t {
      messages = t.messages ++ m ∷ [];
      notices = ns;
      messages_seq = t.messages_seq + 1;
    })
IsValid-add_message t m ns v e new there = record {
  users_once = v.users_once;
  chats_once = v.chats_once;
  messages_once = DistinctKeys-snoc message_key m t.messages v.messages_once new;
  rosters = v.rosters;
  owners = v.owners;
  homes = v.homes;
  threads = All-append _ t.messages (m ∷ []) v.threads (there, tt);
  issued =
      All-append _ t.messages (m ∷ []) (IsIssued-later t.messages_seq t.messages v.issued)
        ((t.messages_seq, e, omega arith), tt);
}

announce-IsValid :
    (env : Env) (t : Tables) (m : Message) (o : Option Chat)
    → IsValid t
    → m.id ≡ pos t.messages_seq
    → has_key message_key m.id t.messages ≡ false
    → chat_by_id m.chat_id t.chats ≡ o
    → IsValid (announce env m o (record t { messages_seq = t.messages_seq + 1 })).1
unfolding announce
announce-IsValid env t m none v e new found = IsValid-messages_seq t v
announce-IsValid env t m (some c) v e new found =
    elim (Bool-cases (sendable env (chat_message_created m c.members))) [
      | inl sent ↦
          rw sent
            (IsValid-add_message t m _ v e new (has_key_of_chat_by_id m.chat_id t.chats c found))
      | inr refused ↦ rw refused (IsValid-messages_seq t v)
    ]

put_message-IsValid :
    (env : Env) (t : Tables) (m : Message)
    → IsValid t
    → m.id ≡ pos t.messages_seq
    → IsValid (put_message env m (record t { messages_seq = t.messages_seq + 1 })).1
unfolding put_message
put_message-IsValid env t m v e = elim (Bool-cases (has_key message_key m.id t.messages)) [
  | inl taken ↦ rw taken (IsValid-messages_seq t v)
  | inr free ↦ rw free (elim (Bool-cases (has_key user_key m.sender_id t.users)) [
    | inl known ↦ rw known (announce-IsValid env t m (chat_by_id m.chat_id t.chats) v e free refl)
    | inr unknown ↦ rw unknown (IsValid-messages_seq t v)
  ])
]

pub nextval-eq_pos : (n : ℕ) (id : ℤ) → nextval n ≡ some id → id ≡ pos n
unfolding nextval
nextval-eq_pos n id e = ground arith

pub insert_message-IsValid :
    (env : Env) (chat_id sender_id : ℤ) (content : Text) (files : List Text) (t : Tables)
    → IsValid t
    → IsValid (insert_message env chat_id sender_id content files t).1
unfolding insert_message
insert_message-IsValid env chat_id sender_id content files t v =
    elim (Option-cases (nextval t.messages_seq)) [
      | inl spent ↦ rw (spent, insert_message) v
      | inr (id, issued) ↦
          rw (issued, insert_message)
            (put_message-IsValid env t _ v (nextval-eq_pos t.messages_seq id issued))
    ]
