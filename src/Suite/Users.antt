-- ===== src/Suite/Users.antt =====
-- The tests of chat_server/src/services/user.rs.
use chat.Base.{
  ℕ, ◌≡◌, refl, pos, ltb_ℤ, text_eq, codes, Text, Bool, true, false, ◌&&◌, ◌==◌, Option, none, some,
  is_some, List, [], ◌∷◌, length, All,
}
use chat.Server.Error.{AppError, email_already_exists}
use chat.Server.Models.{CreateUser, SigninUser}
use chat.Server.World.{Env, pure, ◌>>=◌}
use chat.Server.Services.Users.{create, find_by_email, verify, hash_password, verify_password}
use chat.Suite.{passes, refuses, unwrap}
use chat.Suite.Fixture.{get_test_pool, test_env}

-- `CreateUser::new`
abbrev pub new_user : (ws fullname email password : Text) → CreateUser
new_user ws fullname email password = record {
  fullname = fullname;
  email = email;
  workspace = ws;
  password = password;
}

-- `SigninUser::new`
abbrev pub new_signin : (email password : Text) → SigninUser
new_signin email password = record { email = email; password = password }

unfoldable pub hash_password_and_verify_should_work : Env → Bool
hash_password_and_verify_should_work env =
    passes
      (do
        password_hash ← hash_password env (codes "123456")
        valid ← verify_password env (codes "123456") password_hash
        pure (length password_hash == 97 && valid))
      (get_test_pool env)

abbrev pub is_duplicate : Text → AppError → Bool
is_duplicate email (email_already_exists e) = text_eq e email
is_duplicate email _ = false

unfoldable pub create_duplicate_user_should_fail : Env → Bool
create_duplicate_user_should_fail env =
    passes
      (refuses (is_duplicate (codes "jack1@gmail.com")) (
        create env
          (new_user (codes "none") (codes "jack1") (codes "jack1@gmail.com") (codes "123456"))))
      (get_test_pool env)

unfoldable pub create_and_verify_user_should_work : Env → Bool
create_and_verify_user_should_work env =
    let input = new_user (codes "none") (codes "jack") (codes "jack@admin") (codes "123456") in
    passes
      (do
        user ← create env input
        found ← find_by_email input.email
        again ← unwrap found
        verified ← verify env (new_signin input.email input.password)
        pure (
            text_eq user.email input.email
            && (text_eq user.fullname input.fullname
                && (ltb_ℤ (pos 0) user.id
                    && (text_eq again.email input.email
                        && (text_eq again.fullname input.fullname && is_some verified))))))
      (get_test_pool env)

-- every test of the file passes
user_tests :
    All
      (λ (test : Env → Bool). test test_env ≡ true)
      (hash_password_and_verify_should_work ∷ create_duplicate_user_should_fail
        ∷ create_and_verify_user_should_work ∷ [])
unfolding hash_password_and_verify_should_work create_duplicate_user_should_fail
    create_and_verify_user_should_work chat.Suite.passes chat.Suite.refuses chat.Suite.unwrap
    chat.Suite.same_type chat.Suite.same_name get_test_pool chat.Suite.Fixture.fixture
    chat.Suite.Fixture.execute chat.Server.World.◌>>=◌ chat.Server.World.query
    chat.Server.Sql.Rows.nextval chat.Server.Sql.Rows.drop_chars chat.Server.Sql.Rows.fit
    chat.Server.Sql.Rows.fit_null chat.Server.Sql.Rows.take_chars
    chat.Server.Sql.Workspaces.insert_workspace chat.Server.Sql.Workspaces.put_workspace
    chat.Server.Sql.Workspaces.workspace_row chat.Server.Sql.Users.insert_user
    chat.Server.Sql.Users.put_user chat.Server.Sql.Users.user_row chat.Server.Sql.Chats.insert_chat
    chat.Server.Sql.Chats.put_chat chat.Server.Sql.Chats.chat_row chat.Server.Sql.Chats.chat_by_id
    chat.Server.Sql.Chats.notify chat.Server.Sql.Messages.insert_message
    chat.Server.Sql.Messages.put_message chat.Server.Sql.Messages.announce chat.Base.as_i64
    chat.Base.as_u64 chat.Server.Services.Users.create chat.Server.Services.Users.find_by_email
    chat.Server.Sql.Users.select_user_by_email chat.Server.Services.Users.create_unless
    chat.Server.Sql.Users.user_by_email chat.Server.Services.Users.create_new
    chat.Server.Services.Ws.find_by_name chat.Server.Sql.Workspaces.select_workspace_by_name
    chat.Server.Services.Users.workspace_for chat.Server.Sql.Workspaces.workspace_by_name
    chat.Server.Services.Users.hash_password chat.Server.Services.Users.take_over
    chat.Server.Services.Ws.update_owner chat.Server.Sql.Workspaces.update_workspace_owner
    chat.Server.Sql.Workspaces.workspace_by_id chat.Server.Sql.Workspaces.belongs
    chat.Server.Sql.Workspaces.user_by_id chat.Server.World.◌>>◌ chat.Server.Services.Users.verify
    chat.Server.Services.Users.check_password chat.Server.Services.Users.verify_password
user_tests = (refl, (refl, (refl, tt)))
