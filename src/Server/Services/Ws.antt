-- ===== src/Server/Services/Ws.antt =====
-- `WsService` and `Workspace::update_owner`: chat_server/src/services/ws.rs and
-- chat_server/src/models/workspace.rs.
pub mod Listed
use chat.Base.{ℕ, Text, Option, List, as_i64}
use chat.Server.Models.{Workspace, ChatUser}
use chat.Server.World.{M, query}
use chat.Server.Sql.Workspaces.{
  insert_workspace, select_workspace_by_name, select_workspace_by_id, select_workspace_users,
  update_workspace_owner,
}

-- `WsService::create`
unfoldable pub create : Text → ℕ → M Workspace
create name user_id = query (insert_workspace name (as_i64 user_id))

unfoldable pub find_by_name : Text → M (Option Workspace)
find_by_name name = query (select_workspace_by_name name)

unfoldable pub find_by_id : ℕ → M (Option Workspace)
find_by_id id = query (select_workspace_by_id (as_i64 id))

unfoldable pub fetch_all_chat_users : ℕ → M (List ChatUser)
fetch_all_chat_users id = query (select_workspace_users (as_i64 id))

-- `Workspace::update_owner`
unfoldable pub update_owner : Workspace → ℕ → M Workspace
update_owner ws owner_id = query (update_workspace_owner (as_i64 owner_id) ws.id)
