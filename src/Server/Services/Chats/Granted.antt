-- ===== src/Server/Services/Chats/Granted.antt =====
-- When `ChatService::create` (chat_server/src/services/chat.rs) makes a chat.
use chat.Base.{
  ℕ, ◌+◌, ◌≤◌, ◌⊎◌, inl, inr, ◌≢◌, ◌≡◌, refl, ap, ◌∙◌, ℤ, pos, true, false, Option, none, some,
  List, [], ◌∷◌, ◌++◌, length, arith, as_i64, i64_max, has_key, select, map, is_any, ==_iff, Text,
  codes, count_exact,
}
use chat.Core.{Chat, ChatType}
use chat.Server.Error.{SqlError, Result, ok}
use chat.Server.Models.{CreateChat, UserRow}
use chat.Server.World.{Env, World, Tables, chat_updated, query, lift_sql, ◌>>=◌}
use chat.Server.World.Triples.{query_up}
use chat.Server.Sql.Chats.{insert_chat, put_chat, chat_row, notify}
use chat.Server.Sql.Rows.{nextval, fit_null, sendable}
use chat.Server.Sql.Users.{select_users_by_ids, chat_user_of}
use chat.Server.Services.Chats.Kinds.{IsKind, chat_type-IsKind}
use chat.Server.Services.Chats.{create, create_unless, create_with, refusal, chat_type}
use chat.Server.Services.Users
use chat.Server.Invariant.{IsValid, IsRoster, chat_key, user_key, workspace_key}
use chat.Server.Invariant.Services.{IsLawful, found_length}

refusal-enough :
    (input : CreateChat)
    → 2 ≤ length input.members
    → ((length input.members ≤ 8) ⊎ (input.name ≢ none))
    → refusal input ≡ none
unfolding refusal
refusal-enough input two named = by_name input.name refl
  where
    by_name : (o : Option Text) → input.name ≡ o → refusal input ≡ none
    by_name none e = elim named [ inl small ↦ ground arith | inr n ↦ absurd (n e) ]
    by_name (some n) e = ground arith

-- the row that the request gives
abbrev pub chat_made : CreateChat → ℕ → Option Text → Tables → Chat
chat_made input ws_id name t = record {
  id = pos t.chats_seq;
  ws_id = as_i64 ws_id;
  name = name;
  type = chat_type input.name (length input.members) input.public;
  members = input.members;
  created_at = t.clock;
}

-- the tables with it
abbrev pub with_chat : Chat → Tables → Tables
with_chat c t = record t {
  chats = t.chats ++ c ∷ [];
  chats_seq = t.chats_seq + 1;
  notices = t.notices ++ chat_updated (codes "INSERT") none (some c) ∷ [];
}

put_chat_added :
    (env : Env) (c : Chat) (t : Tables)
    → has_key chat_key c.id t.chats ≡ false
    → has_key workspace_key c.ws_id t.workspaces ≡ true
    → sendable env (chat_updated (codes "INSERT") none (some c)) ≡ true
    → put_chat env (some c) t ≡ (
      ok c,
      record t {
        chats = t.chats ++ c ∷ [];
        notices = t.notices ++ chat_updated (codes "INSERT") none (some c) ∷ [];
      },
    )
unfolding put_chat notify
put_chat_added env c t fresh home short = rw (fresh, home, short) refl

chat_row_fitted :
    (ws_id : ℤ) (name n : Option Text) (type : ChatType) (members : List ℤ) (now : ℕ) (id : ℤ)
    → fit_null 64 name ≡ some n
    → chat_row ws_id name type members now id
      ≡ some (record {
        id = id;
        ws_id = ws_id;
        name = n;
        type = type;
        members = members;
        created_at = now;
      })
unfolding chat_row
chat_row_fitted ws_id name n type members now id fits = rw fits refl

pub nextval_issued : (n : ℕ) → n ≤ i64_max → nextval n ≡ some (pos n)
unfolding nextval
nextval_issued n room = ground arith

module _ (env : Env) (input : CreateChat) (ws_id : ℕ) (name : Option Text) (t : Tables) where
  insert_chat-made :
      t.chats_seq ≤ i64_max
      → fit_null 64 input.name ≡ some name
      → has_key chat_key (pos t.chats_seq) t.chats ≡ false
      → has_key workspace_key (as_i64 ws_id) t.workspaces ≡ true
      → sendable env (chat_updated (codes "INSERT") none (some (chat_made input ws_id name t)))
        ≡ true
      → insert_chat env
          (as_i64 ws_id)
          input.name
          (chat_type input.name (length input.members) input.public)
          input.members
          t
        ≡ (ok (chat_made input ws_id name t), with_chat (chat_made input ws_id name t) t)
  unfolding insert_chat as_i64 chat_type
  insert_chat-made room fits fresh home short =
      let type = chat_type input.name (length input.members) input.public in
      rw
        (
          nextval_issued t.chats_seq room,
          insert_chat,
          chat_row_fitted (as_i64 ws_id) input.name name type input.members t.clock
              (pos t.chats_seq) fits,
        )
        (put_chat_added env (chat_made input ws_id name t)
          (record t { chats_seq = t.chats_seq + 1 }) fresh home short)

created_up :
    (env : Env) (input : CreateChat) (ws_id : ℕ) (w : World)
    → w.link ≡ []
    → refusal input ≡ none
    → length (
        map chat_user_of
          (env.scan_users (select (λ (u : UserRow). is_any u.id input.members) w.tables.users)))
      ≡ length input.members
    → create env input ws_id w
      ≡ query
          (insert_chat env
            (as_i64 ws_id)
            input.name
            (chat_type input.name (length input.members) input.public)
            input.members)
          w
unfolding create create_unless create_with Users.fetch_by_ids select_users_by_ids ◌>>=◌
created_up env input ws_id w up accepted all =
    rw (accepted, query_up (select_users_by_ids env input.members) w up)
      (rw ((==_iff _ _).1 all) refl)

-- With the statements answered, on a database that returns the rows asked for, from a valid state,
-- `create` makes the chat that is asked for if there are two members or more, a name or no more than
-- eight of them, all of them users and none listed twice, the workspace is there, a column of 64
-- characters takes the name, the sequence has an id left that no chat has, and the notification is
-- short enough: the result is the chat, under that id, and the only changes are its row, its
-- notification and the next id. Its type is without a name `single` for two members and `group` for
-- any other number, and with one `public_channel` or `private_channel`.
pub create-chat_made :
    (env : Env) (input : CreateChat) (ws_id : ℕ) (w : World) (name : Option Text)
    → IsLawful env
    → IsValid w.tables
    → w.link ≡ []
    → IsRoster w.tables.users input.members
    → ((length input.members ≤ 8) ⊎ (input.name ≢ none))
    → has_key workspace_key (as_i64 ws_id) w.tables.workspaces ≡ true
    → fit_null 64 input.name ≡ some name
    → w.tables.chats_seq ≤ i64_max
    → has_key chat_key (pos w.tables.chats_seq) w.tables.chats ≡ false
    → sendable env (chat_updated (codes "INSERT") none (some (chat_made input ws_id name w.tables)))
      ≡ true
    → (create env input ws_id w ≡ (
      ok (chat_made input ws_id name w.tables),
      record w { tables = with_chat (chat_made input ws_id name w.tables) w.tables },
    ))
      × IsKind input.name
          (length input.members)
          input.public
          (chat_made input ws_id name w.tables).type
create-chat_made env input ws_id w name l v up roster named home fits room fresh short =
    let rows = select (λ (u : UserRow). is_any u.id input.members) w.tables.users in
    let all =
      found_length env rows l
      ∙ count_exact user_key input.members w.tables.users v.users_once roster.known roster.once in
    (
      created_up env input ws_id w up (refusal-enough input roster.enough named) all
          ∙ query_up _ w up
          ∙ ap (λ (r : Result SqlError Chat × Tables). (lift_sql r.0, record w { tables = r.1 }))
              (insert_chat-made env input ws_id name w.tables room fits fresh home short),
      chat_type-IsKind input.name (length input.members) input.public,
    )
