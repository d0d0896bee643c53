-- ===== src/Server/Error.antt =====
-- Errors and the responses that they become: chat_server/src/error.rs.
use chat.Base.{ℕ, Text, codes, ◌++◌, ◌≡◌}

-- the ways in which a statement of this program fails at the database
pub data SqlError : Type 0 where
  connection row_not_found unique_violation foreign_key_violation : SqlError
  value_too_long sequence_exhausted negative_limit payload_too_long : SqlError

-- Errors of std, argon2 and anyhow are known by the text that they display.
pub data AppError : Type 0 where
  email_already_exists create_chat_error not_found invalid_input : Text → AppError
  io_error : Text → AppError
  permission_deny : AppError
  sqlx_error : SqlError → AppError
  password_hash_error any_error : Text → AppError

-- A call returns, fails with an error, or panics.
pub data Result {ℓ κ} (E : Type ℓ) (A : Type κ) : Type (ℓ ⊔ κ) where
  ok : A → Result E A
  err : E → Result E A
  panic : Result E A

-- the status of `AppError::into_response`
unfoldable pub status_of : AppError → ℕ
status_of (email_already_exists _) = 409
status_of (create_chat_error _) = 400
status_of (not_found _) = 404
status_of (invalid_input _) = 400
status_of (io_error _) = 500
status_of permission_deny = 403
status_of (sqlx_error _) = 500
status_of (password_hash_error _) = 422
status_of (any_error _) = 500

-- `to_string` of an `AppError`, given how sqlx displays its own errors
unfoldable pub display : (SqlError → Text) → AppError → Text
display sql (email_already_exists e) = codes "email already exists: " ++ e
display sql (create_chat_error e) = codes "create chat error: " ++ e
display sql (not_found e) = codes "not found: " ++ e
display sql (invalid_input e) = codes "invalid input: " ++ e
display sql (io_error e) = codes "io error: " ++ e
display sql permission_deny = codes "permission deny"
display sql (sqlx_error e) = codes "sql error: " ++ sql e
display sql (password_hash_error e) = codes "password hash error: " ++ e
display sql (any_error e) = codes "general error: " ++ e

pub ok-injective {ℓ κ} :
    {E : Type ℓ} {A : Type κ} (a b : A) → ◌≡◌ {A = Result E A} (ok a) (ok b) → a ≡ b
ok-injective a b e = cc
