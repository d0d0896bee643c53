-- ===== src/Server/Services.antt =====
-- The services, chat_server/src/services: one child for each.
pub mod Ws
pub mod Users
pub mod Chats
pub mod Msgs
