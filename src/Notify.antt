-- ===== src/Notify.antt =====
-- The notify server, notify_server/src.
pub mod Sets
pub mod Members
pub mod Counting
pub mod Affected
pub mod Notif
pub mod Sse
pub mod Router
