-- ===== src/Core/Auth.antt =====
-- The middlewares that admit a request: chat_core/src/middlewares/auth.rs. `R` is what the rest of
-- the stack gives, and `respond` an immediate response.
use chat.Base.{ℕ, Text, codes, Option, none, some, ◌++◌}
use chat.Core.{User}
use chat.Http.{Response, respond_with, text}
use chat.Server.Error.{Result, ok, err, panic}

-- the token: the bearer header, or else the query
unfoldable pub token_of : (bearer query : Option Text) → Option Text
token_of (some token) query = some token
token_of none (some token) = some token
token_of none none = none

module _ {R : Type 0} (respond : Response → R) (crash : R) (verify : Text → Result Text User) where
  -- what becomes of a token, under the status for one that is not verified
  unfoldable pub with_user : (status : ℕ) (message : Text) → Result Text User → (User → R) → R
  with_user status message (ok user) next = next user
  with_user status message (err e) next = respond (respond_with status (text (message ++ e)))
  with_user status message panic next = crash

  -- `verify_token`; a header that cannot be parsed is an error with a text
  unfoldable pub verify_token : Result Text Text → (User → R) → R
  verify_token (ok token) next = with_user 403 (codes "verify token failed: ") (verify token) next
  verify_token (err e) next =
      respond (respond_with 401 (text (codes "parse Authorization header failed: " ++ e)))
  verify_token panic next = crash

  -- what becomes of the token that is there, or of none
  unfoldable pub verify_found : Option Text → (User → R) → R
  verify_found none next = respond (respond_with 400 (text (codes "need token")))
  verify_found (some token) next =
      with_user 401 (codes "parse Authorization header failed: ") (verify token) next

  -- `verify_token_v2`
  unfoldable pub verify_token_v2 : (bearer query : Option Text) → (User → R) → R
  verify_token_v2 bearer query next = verify_found (token_of bearer query) next
