-- ===== src/Server/Sql/Workspaces.antt =====
-- The statements on the table `workspaces`, and the members of a workspace in order:
-- chat_server/src/services/ws.rs and chat_server/src/models/workspace.rs.
use chat.Base.{
  ◌+◌, ℤ, eq_ℤ, ltb_ℤ, Text, text_eq, Bool, false, ◌||◌, Option, none, some, List, ◌∷◌, [], ◌++◌,
  map, if◌then◌else◌, find, select, any,
}
use chat.Core.{Time}
use chat.Server.Models.{UserRow, ChatUser, Workspace}
use chat.Server.Error.{
  unique_violation, foreign_key_violation, value_too_long, sequence_exhausted, row_not_found, ok,
  err,
}
use chat.Server.World.{Statement}
use chat.Server.Sql.Rows.{fit, nextval, ◌>>=◌}
use chat.Server.Sql.Users.{chat_user_of}

unfoldable pub workspace_by_name : Text → List Workspace → Option Workspace
workspace_by_name name = find (λ w. text_eq w.name name)

unfoldable pub workspace_by_id : ℤ → List Workspace → Option Workspace
workspace_by_id id = find (λ w. eq_ℤ w.id id)

unfoldable pub user_by_id : ℤ → List UserRow → Option UserRow
user_by_id id = find (λ u. eq_ℤ u.id id)

-- SELECT … FROM workspaces WHERE name = $1
unfoldable pub select_workspace_by_name : Text → Statement (Option Workspace)
select_workspace_by_name name t = (ok (workspace_by_name name t.workspaces), t)

-- SELECT … FROM workspaces WHERE id = $1
unfoldable pub select_workspace_by_id : ℤ → Statement (Option Workspace)
select_workspace_by_id id t = (ok (workspace_by_id id t.workspaces), t)

unfoldable pub workspace_row : Text → ℤ → Time → ℤ → Option Workspace
workspace_row name owner_id now id = do
  n ← fit 32 name
  some (record { id = id; name = n; owner_id = owner_id; created_at = now })

-- the constraints: the primary key, the unique name, the reference to users
unfoldable pub put_workspace : Option Workspace → Statement Workspace
put_workspace none t = (err value_too_long, t)
put_workspace (some r) t =
    if any (λ w. text_eq w.name r.name || eq_ℤ w.id r.id) t.workspaces
    then (err unique_violation, t)
    else if any (λ (u : UserRow). eq_ℤ u.id r.owner_id) t.users
    then (ok r, record t { workspaces = t.workspaces ++ r ∷ [] })
    else (err foreign_key_violation, t)

-- INSERT INTO workspaces (name, owner_id) VALUES ($1, $2) RETURNING …
unfoldable pub insert_workspace : Text → ℤ → Statement Workspace
insert_workspace name owner_id t = elim (nextval t.workspaces_seq) [
  | none ↦ (err sequence_exhausted, t)
  | some id ↦
      put_workspace (workspace_row name owner_id t.clock id)
        (record t { workspaces_seq = t.workspaces_seq + 1 })
]

-- (SELECT ws_id FROM users WHERE id = $1) = $2; no such user is NULL, which is not true
unfoldable pub belongs : ℤ → ℤ → List UserRow → Bool
belongs owner_id id us = elim (user_by_id owner_id us) [ none ↦ false | some u ↦ eq_ℤ u.ws_id id ]

abbrev pub own : ℤ → ℤ → Workspace → Workspace
own id owner_id w = if eq_ℤ w.id id then record w { owner_id = owner_id } else w

-- UPDATE workspaces SET owner_id = $1 WHERE id = $2 and (…) = $2 RETURNING …
unfoldable pub update_workspace_owner : ℤ → ℤ → Statement Workspace
update_workspace_owner owner_id id t = elim (workspace_by_id id t.workspaces) [
  | none ↦ (err row_not_found, t)
  | some w ↦
      if belongs owner_id id t.users
      then (
        ok (record w { owner_id = owner_id }),
        record t { workspaces = map (own id owner_id) t.workspaces },
      )
      else (err row_not_found, t)
]

unfoldable pub place_user : UserRow → List UserRow → List UserRow
place_user u [] = u ∷ []
place_user u (x ∷ xs) = if ltb_ℤ x.id u.id then x ∷ place_user u xs else u ∷ x ∷ xs

-- ORDER BY id
unfoldable pub order_asc : List UserRow → List UserRow
order_asc [] = []
order_asc (u ∷ us) = place_user u (order_asc us)

-- SELECT id, fullname, email FROM users WHERE ws_id = $1 order by id
unfoldable pub select_workspace_users : ℤ → Statement (List ChatUser)
select_workspace_users ws_id t =
    (ok (map chat_user_of (order_asc (select (λ u. eq_ℤ u.ws_id ws_id) t.users))), t)
