-- ===== src/Server/Invariant.antt =====
-- The invariant of the tables of migrations/20240605232554_initial.sql.
pub mod Users
pub mod Workspaces
pub mod Chats
pub mod Messages
pub mod Services
pub mod Runs
use chat.Base.{
  ℕ, suc, ◌≤◌, ◌<◌, ◌≡◌, ◌⊎◌, ℤ, pos, true, List, All, length, has_key, Distinct, DistinctKeys,
}
use chat.Core.{Chat, Message}
use chat.Server.Models.{UserRow, Workspace}
use chat.Server.World.{Tables}
use chat.Server.Sql.Workspaces.{belongs}

abbrev pub user_key : UserRow → ℤ
user_key u = u.id

abbrev pub workspace_key : Workspace → ℤ
workspace_key w = w.id

abbrev pub chat_key : Chat → ℤ
chat_key c = c.id

abbrev pub message_key : Message → ℤ
message_key m = m.id

-- At least two members, all of them users, and none listed twice.
pub record IsRoster (us : List UserRow) (members : List ℤ) : Type 0 where
  pub known : All (λ z. has_key user_key z us ≡ true) members
  pub once : Distinct members
  pub enough : 2 ≤ length members

-- A workspace has no owner yet, or one of its own users owns it.
abbrev pub IsOwned : List UserRow → Workspace → Type 0
IsOwned us w = (w.owner_id ≡ pos 0) ⊎ (belongs w.owner_id w.id us ≡ true)

-- an id that the sequence has given out
abbrev pub IsIssued : ℕ → ℤ → Type 0
IsIssued n z = (k : ℕ) × (z ≡ pos k) × (k < n)

pub record IsValid (t : Tables) : Type 0 where
  pub users_once : DistinctKeys user_key t.users
  pub chats_once : DistinctKeys chat_key t.chats
  pub messages_once : DistinctKeys message_key t.messages
  pub rosters : All (λ c. IsRoster t.users c.members) t.chats
  pub owners : All (IsOwned t.users) t.workspaces
  pub homes : All (λ c. has_key workspace_key c.ws_id t.workspaces ≡ true) t.chats
  pub threads : All (λ m. has_key chat_key m.chat_id t.chats ≡ true) t.messages
  pub issued : All (λ m. IsIssued t.messages_seq m.id) t.messages
