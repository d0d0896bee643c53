-- ===== src/Server/Sql/Chats.antt =====
-- The statements on the table `chats` with the trigger `add_to_chat`:
-- chat_server/src/services/chat.rs and migrations/20240629094732_triggers.sql.
use chat.Base.{
  ℕ, ◌+◌, ℤ, eq_ℤ, Text, codes, Bool, not, ◌&&◌, Option, none, some, List, ◌∷◌, [], ◌++◌, map,
  if◌then◌else◌, find, select, any, is_any,
}
use chat.Core.{Chat, ChatType, Message, Time}
use chat.Server.Models.{Workspace}
use chat.Server.Error.{
  unique_violation, foreign_key_violation, value_too_long, sequence_exhausted, row_not_found,
  payload_too_long, ok, err,
}
use chat.Server.World.{Tables, Statement, Env, Notice, chat_updated}
use chat.Server.Sql.Rows.{fit_null, nextval, sendable, ◌>>=◌}

unfoldable pub chat_by_id : ℤ → List Chat → Option Chat
chat_by_id id = find (λ c. eq_ℤ c.id id)

-- The trigger's `pg_notify`, after which the statement takes effect.
unfoldable pub notify : Env → Notice → Chat → Tables → Statement Chat
notify env n c done t =
    if sendable env n
    then (ok c, record done { notices = t.notices ++ n ∷ [] })
    else (err payload_too_long, t)

-- SELECT … FROM chats WHERE id = $1
unfoldable pub select_chat : ℤ → Statement (Option Chat)
select_chat id t = (ok (chat_by_id id t.chats), t)

-- SELECT … FROM chats WHERE ws_id = $1
unfoldable pub select_chats_by_ws : Env → ℤ → Statement (List Chat)
select_chats_by_ws env ws_id t = (ok (env.scan_chats (select (λ c. eq_ℤ c.ws_id ws_id) t.chats)), t)

-- SELECT 1 FROM chats WHERE id = $1 AND $2 = ANY(members); whether there is a row
unfoldable pub select_membership : ℤ → ℤ → Statement (Option ℕ)
select_membership id user_id t = (
  ok (elim (find (λ (c : Chat). eq_ℤ c.id id && is_any user_id c.members) t.chats) [
    | none ↦ none
    | some _ ↦ some 1
  ]),
  t,
)

unfoldable pub chat_row : ℤ → Option Text → ChatType → List ℤ → Time → ℤ → Option Chat
chat_row ws_id name type members now id = do
  n ← fit_null 64 name
  some (record {
    id = id;
    ws_id = ws_id;
    name = n;
    type = type;
    members = members;
    created_at = now;
  })

-- the constraints (the primary key, the reference to workspaces), then the trigger
unfoldable pub put_chat : Env → Option Chat → Statement Chat
put_chat env none t = (err value_too_long, t)
put_chat env (some c) t =
    if any (λ (x : Chat). eq_ℤ x.id c.id) t.chats
    then (err unique_violation, t)
    else if any (λ (w : Workspace). eq_ℤ w.id c.ws_id) t.workspaces
    then notify env (chat_updated (codes "INSERT") none (some c)) c
        (record t { chats = t.chats ++ c ∷ [] }) t
    else (err foreign_key_violation, t)

-- INSERT INTO chats (ws_id, name, type, members) VALUES ($1, $2, $3, $4) RETURNING …
unfoldable pub insert_chat : Env → ℤ → Option Text → ChatType → List ℤ → Statement Chat
insert_chat env ws_id name type members t = elim (nextval t.chats_seq) [
  | none ↦ (err sequence_exhausted, t)
  | some id ↦
      put_chat env (chat_row ws_id name type members t.clock id)
        (record t { chats_seq = t.chats_seq + 1 })
]

abbrev pub rename : ℤ → Option Text → Chat → Chat
rename id name c = if eq_ℤ c.id id then record c { name = name } else c

unfoldable pub put_name : Env → Option (Option Text) → ℤ → Chat → Statement Chat
put_name env none id c t = (err value_too_long, t)
put_name env (some n) id c t =
    let c' = record c { name = n } in
    notify env (chat_updated (codes "UPDATE") (some c) (some c')) c'
      (record t { chats = map (rename id n) t.chats }) t

-- update chats SET name = $1 WHERE id = $2 RETURNING …
unfoldable pub update_chat : Env → Option Text → ℤ → Statement Chat
update_chat env name id t = elim (chat_by_id id t.chats) [
  | none ↦ (err row_not_found, t)
  | some c ↦ put_name env (fit_null 64 name) id c t
]

abbrev pub not_chat : ℤ → Chat → Bool
not_chat id c = not (eq_ℤ c.id id)

abbrev pub not_in_chat : ℤ → Message → Bool
not_in_chat id m = not (eq_ℤ m.chat_id id)

-- DELETE FROM chats WHERE id = $1 RETURNING …, with ON DELETE CASCADE on messages.chat_id
unfoldable pub delete_chat : Env → ℤ → Statement Chat
delete_chat env id t = elim (chat_by_id id t.chats) [
  | none ↦ (err row_not_found, t)
  | some c ↦
      notify env (chat_updated (codes "DELETE") (some c) none) c
        (record t {
          chats = select (not_chat id) t.chats;
          messages = select (not_in_chat id) t.messages;
        })
        t
]
