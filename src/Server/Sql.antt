-- ===== src/Server/Sql.antt =====
-- The SQL statements of chat_server/src/services/*.rs and models/workspace.rs over the tables,
-- constraints and triggers of migrations/*.sql. `fetch_optional` on a unique column and `fetch_one`
-- are the first row; a refused INSERT has used up its number, as a sequence is not rolled back.
pub mod Rows
pub mod Users
pub mod Workspaces
pub mod Chats
pub mod Messages
