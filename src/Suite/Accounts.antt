-- ===== src/Suite/Accounts.antt =====
-- The tests of chat_server/src/handlers/auth.rs.
use chat.Base.{
  ℕ, ◌≡◌, refl, text_eq, Text, codes, Bool, true, false, not, ◌&&◌, ◌==◌, List, [], ◌∷◌, All,
}
use chat.Http.{Response, Body, error, auth_output}
use chat.Samples.{some_keys}
use chat.Server.Error.{AppError, display}
use chat.Server.World.{Env, M, pure, ◌>>=◌}
use chat.Server.Services.Users
use chat.Server.Handlers.{App, into_response}
use chat.Server.Handlers.Accounts.{signup_handler, signin_handler}
use chat.Suite.{passes, refuses, unwrap}
use chat.Suite.Fixture.{get_test_pool, test_env}
use chat.Suite.Users.{new_user, new_signin, is_duplicate}

-- the state of `get_test_state_and_pg`, over the database of `get_test_pool`
abbrev pub test_state : Env → App
test_state env = record { env = env; keys = some_keys; base_dir = codes "/tmp/chat_server" }

-- the body is an `AuthOutput`, and its token is not empty
abbrev has_token : Body → Bool
has_token (auth_output token) = not (text_eq token [])
has_token _ = false

-- the body is an `ErrorOutput` with that text
abbrev has_error : Text → Body → Bool
has_error e (error x) = text_eq x e
has_error e _ = false

-- the refusal's response
abbrev is_response : Env → (status : ℕ) → Text → AppError → Bool
is_response env status e x = let r = into_response env x in r.status == status && has_error e r.body

unfoldable pub signup_should_work : Env → Bool
signup_should_work env =
    passes
      (do
        ret ←
            signup_handler (test_state env)
              (new_user (codes "none") (codes "jack") (codes "admin@admin.com") (codes "Hunter42"))
        pure (has_token ret.body))
      (get_test_pool env)

unfoldable pub signup_duplicate_user_should_409 : Env → Bool
signup_duplicate_user_should_409 env =
    passes
      (refuses (is_response env 409 (codes "email already exists: jack1@gmail.com")) (
        signup_handler (test_state env)
          (new_user (codes "ws1") (codes "jack1") (codes "jack1@gmail.com") (codes "Hunter42"))))
      (get_test_pool env)

unfoldable pub duplicate_user_create_should_fail : Env → Bool
duplicate_user_create_should_fail env =
    let input =
      new_user (codes "none") (codes "jack") (codes "admin@admin.com") (codes "Hunter42") in
    passes
      (do _ ← Users.create env input; refuses (is_duplicate input.email) (Users.create env input))
      (get_test_pool env)

-- `signin_handler` and the status and error of its response
abbrev signin_gives : Env → (email password : Text) → (Response → Bool) → Bool
signin_gives env email password expected =
    passes
      (do ret ← signin_handler (test_state env) (new_signin email password); pure (expected ret))
      (get_test_pool env)

unfoldable pub signin_with_wrong_password_should_403 : Env → Bool
signin_with_wrong_password_should_403 env =
    signin_gives env (codes "jack1@gmail.com") (codes "wrong-password")
      (λ ret. ret.status == 403 && has_error (codes "Invalid email or password") ret.body)

unfoldable pub signin_with_non_exist_user_should_403 : Env → Bool
signin_with_non_exist_user_should_403 env =
    signin_gives env (codes "non-exist@admin.com") (codes "Hunter42")
      (λ ret. ret.status == 403 && has_error (codes "Invalid email or password") ret.body)

unfoldable pub signin_should_work : Env → Bool
signin_should_work env =
    signin_gives env (codes "jack1@gmail.com") (codes "Hunter48")
      (λ ret. ret.status == 200 && has_token ret.body)

-- every test of the file passes
account_tests :
    All
      (λ (test : Env → Bool). test test_env ≡ true)
      (signup_should_work ∷ signup_duplicate_user_should_409 ∷ duplicate_user_create_should_fail
        ∷ signin_with_wrong_password_should_403 ∷ signin_with_non_exist_user_should_403
        ∷ signin_should_work ∷ [])
unfolding signup_should_work signup_duplicate_user_should_409 duplicate_user_create_should_fail
    signin_with_wrong_password_should_403 signin_with_non_exist_user_should_403 signin_should_work
    display into_response signup_handler signin_handler chat.Server.Handlers.Accounts.token_response
    chat.Server.Handlers.Accounts.signed_in chat.Server.Error.status_of
    chat.Server.Services.Msgs.lift chat.Core.Jwt.sign chat.Suite.passes chat.Suite.refuses
    chat.Suite.unwrap chat.Suite.same_type chat.Suite.same_name get_test_pool
    chat.Suite.Fixture.fixture chat.Suite.Fixture.execute chat.Server.World.◌>>=◌
    chat.Server.World.query chat.Server.Sql.Rows.nextval chat.Server.Sql.Rows.drop_chars
    chat.Server.Sql.Rows.fit chat.Server.Sql.Rows.fit_null chat.Server.Sql.Rows.take_chars
    chat.Server.Sql.Workspaces.insert_workspace chat.Server.Sql.Workspaces.put_workspace
    chat.Server.Sql.Workspaces.workspace_row chat.Server.Sql.Users.insert_user
    chat.Server.Sql.Users.put_user chat.Server.Sql.Users.user_row chat.Server.Sql.Chats.insert_chat
    chat.Server.Sql.Chats.put_chat chat.Server.Sql.Chats.chat_row chat.Server.Sql.Chats.chat_by_id
    chat.Server.Sql.Chats.notify chat.Server.Sql.Messages.insert_message
    chat.Server.Sql.Messages.put_message chat.Server.Sql.Messages.announce chat.Base.as_i64
    chat.Base.as_u64 chat.Server.Services.Users.create chat.Server.Services.Users.find_by_email
    chat.Server.Sql.Users.select_user_by_email chat.Server.Services.Users.create_unless
    chat.Server.Sql.Users.user_by_email chat.Server.Services.Users.create_new
    chat.Server.Services.Ws.find_by_name chat.Server.Sql.Workspaces.select_workspace_by_name
    chat.Server.Services.Users.workspace_for chat.Server.Sql.Workspaces.workspace_by_name
    chat.Server.Services.Users.hash_password chat.Server.Services.Users.take_over
    chat.Server.Services.Ws.update_owner chat.Server.Sql.Workspaces.update_workspace_owner
    chat.Server.Sql.Workspaces.workspace_by_id chat.Server.Sql.Workspaces.belongs
    chat.Server.Sql.Workspaces.user_by_id chat.Server.World.◌>>◌ chat.Server.Services.Users.verify
    chat.Server.Services.Users.check_password chat.Server.Services.Users.verify_password
account_tests = (refl, (refl, (refl, (refl, (refl, (refl, tt))))))
