-- ===== src/Lib.antt =====
-- The chat server, the notify server and the code that they share, as a state-passing program whose
-- behaviour is proved.
--
-- Parts, and where each is modelled. Every file names its source; paths are from the repository's
-- root.
--   Base, Strings: integers of 64 bits with the casts between i64 and u64, text as the bytes of
--     UTF-8, and the functions of Rust's std that the program calls on them.
--   Core: chat_core. User, Chat and Message, tokens (utils/jwt.rs), the token middlewares
--     (middlewares/auth.rs), and request ids and server time.
--   Http: responses before serialization, and headers.
--   Server/World: the state of the chat server. It is the four tables with their sequences, the
--     notifications sent, the connection, the disk and the random source. An async function is a
--     function from the state to a result and a state; a result is a value, an `AppError` or a
--     panic (Server/Error, chat_server/src/error.rs).
--   Server/Sql: each SQL statement of the services with the constraints of migrations/*.sql that it
--     can meet and the triggers of migrations/20240629094732_triggers.sql. A statement runs at once.
--   Server/Services: WsService, UserService, ChatService and MsgService, chat_server/src/services. One
--     function per method, under the method's name, with helpers for the parts of a body.
--   Server/ChatFile: chat_server/src/models/chat.rs.
--   Server/Handlers: chat_server/src/handlers, the permission middleware and the router. A request is
--     its route with the parameters that axum has parsed.
--   Server/Invariant: what holds of the tables whatever the services do.
--   Server/Interleaved: the calls of the services that write, cut at each of their accesses to what
--     other calls share (a statement, the random source, a look at the disk), a step relation that
--     interleaves the accesses of any number of calls, and an executable scheduler.
--   Server/Book: an abstract state, of people, rooms and what was said in them, with its changes; the
--     specification of the services that run at the same time.
--   Config: which configuration file a server loads.
--   Startup: main of both servers, with what they ask of the system and in which order.
--   Notify: notify_server/src. Notif loads notifications and finds the users that they affect, Sse
--     has the map of senders, the handler that subscribes and the listener task, Router the routes.
--   Delivered: a message, and a change of a chat, from the chat server's statement to the senders of
--     its readers.
--   Suite: the tests of the repository as functions into Bool, over the database that the statements
--     of chat_server/fixtures/test.sql build, run on the model.
--   Samples, Tests: a small database, and the theorems at concrete inputs.
--
-- The handlers call the services, the services run statements through `query`, and a trigger's
-- notification is what the notify server loads. `query` reads from the state what becomes of the
-- statement: it is answered, refused, or run with its reply lost, so that a theorem over all states
-- is one over all such failures.
--
-- Bounds and fuel. All loops are structural. `to_text` has the number plus one as fuel, and a number
-- has no more digits than that. `as_i64` and `as_u64` wrap as Rust's casts do, and ids come from
-- sequences that end at 2 ^ 63 - 1. LIMIT is refused when the cast makes it negative.
--
-- Parameters (the record `Env` of Server/World, and arguments): argon2, SHA-1, path resolution, the
-- errors of opening and writing files, MIME types, the size of a notification as JSON, the order of rows without ORDER BY, jwt_simple,
-- serde_json, serde_yaml, the clock and the random source.
--
-- Not modelled: what PostgreSQL does inside of one statement, tracing and compression, OpenAPI
-- annotations, text with NUL bytes (which PostgreSQL refuses), tokio's broadcast channels and the
-- event stream.
pub mod Base
pub mod Strings
pub mod Core
pub mod Http
pub mod Server
pub mod Notify
pub mod Config
pub mod Delivered
pub mod Startup
pub mod Samples
pub mod Suite
pub mod Tests
