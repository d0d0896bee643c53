-- ===== src/Server.antt =====
-- The chat server, chat_server/src: one child for each part.
pub mod Models
pub mod Error
pub mod World
pub mod Sql
pub mod ChatFile
pub mod Services
pub mod Invariant
pub mod Handlers
pub mod Book
pub mod Interleaved
