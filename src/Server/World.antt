-- ===== src/Server/World.antt =====
-- The state of the chat server and the monad of its async functions. The state is the tables of
-- migrations/*.sql, the connection to them, the disk, and the random source. What the server uses
-- and does not implement (PostgreSQL's freedom, argon2, SHA-1, path resolution) is a parameter.
pub mod Triples
use chat.Base.{ℕ, ◌+◌, ℤ, Text, Option, List, [], ◌∷◌, Bool}
use chat.Core.{User, Chat, Message, Time}
use chat.Server.Models.{UserRow, Workspace}
use chat.Server.Error.{SqlError, connection, AppError, sqlx_error, Result, ok, err, panic}

-- What the triggers of migrations/20240629094732_triggers.sql hand to `pg_notify`.
pub data Notice : Type 0 where
  chat_updated : (op : Text) (old new : Option Chat) → Notice
  chat_message_created : (message : Message) (members : List ℤ) → Notice

-- Each table with the next value of its sequence, what CURRENT_TIMESTAMP reads, and the
-- notifications sent so far.
pub record Tables : Type 0 where
  pub users : List UserRow
  pub workspaces : List Workspace
  pub chats : List Chat
  pub messages : List Message
  pub users_seq : ℕ
  pub workspaces_seq : ℕ
  pub chats_seq : ℕ
  pub messages_seq : ℕ
  pub clock : Time
  pub notices : List Notice

-- What becomes of the next statements: run, refused by the connection pool, or run with the
-- reply lost. With none left all statements run.
pub data Link : Type 0 where
  answered refused reply_lost : Link

pub data Entry : Type 0 where
  dir : Entry
  file : (bytes : Text) → Entry

pub record World : Type 0 where
  pub tables : Tables
  pub link : List Link
  pub disk : List (Text × Entry)
  pub drawn : ℕ

-- What the server uses and does not implement.
pub record Env : Type 0 where
  -- PostgreSQL: the bytes of a notification as JSON, and the order of rows without ORDER BY
  pub payload_bytes : Notice → ℕ
  pub scan_users : List UserRow → List UserRow
  pub scan_chats : List Chat → List Chat
  -- argon2: a hash string from password and salt, the check of a hash string's form, and the
  -- comparison; and the salts that the random source gives
  pub argon2_hash : (password salt : Text) → Result Text Text
  pub argon2_parse : Text → Result Text Text
  pub argon2_verify : (password parsed : Text) → Bool
  pub salt : ℕ → Text
  -- SHA-1 of a file's bytes in hexadecimal, and where the operating system looks for a path
  pub sha1_hex : Text → Text
  pub resolve : Text → Text
  -- the errors of a write to a path and of opening it, if they fail; the MIME type of a path; a
  -- header's value
  pub write_error : Text → Option Text
  pub open_error : Text → Option Text
  pub mime : Text → Text
  pub header_value : Text → Option Text
  -- how sqlx displays its errors
  pub sql_text : SqlError → Text

-- An async function: it changes the state and returns, fails or panics.
abbrev pub M : Type 0 → Type 0
M A = World → Result AppError A × World

-- One SQL statement.
abbrev pub Statement : Type 0 → Type 0
Statement A = Tables → Result SqlError A × Tables

module _ {A : Type 0} where
  abbrev pub pure : A → M A
  pure a w = (ok a, w)

  abbrev pub raise : AppError → M A
  raise e w = (err e, w)

  abbrev pub abort : M A
  abort w = (panic, w)

  -- what an async function does with the result of the one that it calls
  abbrev pub resume :
      {B : Type 0} → (A → M B) → Result AppError A × World → Result AppError B × World
  resume k (ok a, w) = k a w
  resume k (err e, w) = (err e, w)
  resume k (panic, w) = (panic, w)

infixl 5 ◌>>=◌ ◌>>◌
unfoldable pub ◌>>=◌ : {A B : Type 0} → M A → (A → M B) → M B
(m >>= k) w = resume k (m w)

unfoldable pub ◌>>◌ : {A B : Type 0} → M A → M B → M B
(m >> k) = m >>= λ _. k

-- `?` on a result of sqlx
abbrev pub lift_sql : {A : Type 0} → Result SqlError A → Result AppError A
lift_sql (ok a) = ok a
lift_sql (err e) = err (sqlx_error e)
lift_sql panic = panic

abbrev pub run_over : {A : Type 0} → List Link → Statement A → M A
run_over [] s w = let (r, t) = s w.tables in (lift_sql r, record w { tables = t })
run_over (answered ∷ rest) s w =
    let (r, t) = s w.tables in (lift_sql r, record w { tables = t; link = rest })
run_over (refused ∷ rest) s w = (err (sqlx_error connection), record w { link = rest })
run_over (reply_lost ∷ rest) s w =
    let (r, t) = s w.tables in (err (sqlx_error connection), record w { tables = t; link = rest })

-- `.fetch_…(&self.pool).await?`
unfoldable pub query : {A : Type 0} → Statement A → M A
query s w = run_over w.link s w
