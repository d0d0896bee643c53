-- ===== src/Suite/Workspaces.antt =====
-- The tests of chat_server/src/services/ws.rs.
use chat.Base.{
  ℕ, ◌≡◌, refl, ℤ, pos, eq_ℤ, text_eq, codes, as_u64, Bool, true, false, ◌&&◌, Option, none, some,
  List, [], ◌∷◌, All,
}
use chat.Server.Models.{ChatUser}
use chat.Server.World.{Env, pure, ◌>>=◌}
use chat.Server.Services.Users
use chat.Server.Services.Ws.{create, find_by_name, fetch_all_chat_users, update_owner}
use chat.Suite.{passes, refuses, unwrap}
use chat.Suite.Fixture.{get_test_pool, test_env}
use chat.Suite.Users.{new_user}

unfoldable pub workspace_should_create_and_set_owner : Env → Bool
workspace_should_create_and_set_owner env =
    passes
      (do
        ws ← create (codes "test") 0
        user ←
            Users.create env
              (new_user ws.name (codes "jack") (codes "jack@gmail.org") (codes "Hunter42"))
        ws' ← update_owner ws (as_u64 user.id)
        pure (
            text_eq ws.name (codes "test") && (eq_ℤ user.ws_id ws.id && eq_ℤ ws'.owner_id user.id)))
      (get_test_pool env)

unfoldable pub workspace_should_find_by_name : Env → Bool
workspace_should_find_by_name env =
    passes
      (do
        found ← find_by_name (codes "ws1")
        ws ← unwrap found
        pure (text_eq ws.name (codes "ws1")))
      (get_test_pool env)

-- `users.len()` and the id at each index
abbrev have_ids : List ℤ → List ChatUser → Bool
have_ids [] [] = true
have_ids (z ∷ zs) (u ∷ us) = eq_ℤ u.id z && have_ids zs us
have_ids [] (u ∷ us) = false
have_ids (z ∷ zs) [] = false

unfoldable pub workspace_should_fetch_all_chat_users : Env → Bool
workspace_should_fetch_all_chat_users env =
    passes
      (do
        users ← fetch_all_chat_users 1
        pure (have_ids (pos 1 ∷ pos 2 ∷ pos 3 ∷ pos 4 ∷ pos 5 ∷ []) users))
      (get_test_pool env)

-- every test of the file passes
workspace_tests :
    All
      (λ (test : Env → Bool). test test_env ≡ true)
      (workspace_should_create_and_set_owner ∷ workspace_should_find_by_name
        ∷ workspace_should_fetch_all_chat_users ∷ [])
unfolding workspace_should_create_and_set_owner workspace_should_find_by_name
    workspace_should_fetch_all_chat_users chat.Suite.passes chat.Suite.refuses chat.Suite.unwrap
    chat.Suite.same_type chat.Suite.same_name get_test_pool chat.Suite.Fixture.fixture
    chat.Suite.Fixture.execute chat.Server.World.◌>>=◌ chat.Server.World.query
    chat.Server.Sql.Rows.nextval chat.Server.Sql.Rows.drop_chars chat.Server.Sql.Rows.fit
    chat.Server.Sql.Rows.fit_null chat.Server.Sql.Rows.take_chars
    chat.Server.Sql.Workspaces.insert_workspace chat.Server.Sql.Workspaces.put_workspace
    chat.Server.Sql.Workspaces.workspace_row chat.Server.Sql.Users.insert_user
    chat.Server.Sql.Users.put_user chat.Server.Sql.Users.user_row chat.Server.Sql.Chats.insert_chat
    chat.Server.Sql.Chats.put_chat chat.Server.Sql.Chats.chat_row chat.Server.Sql.Chats.chat_by_id
    chat.Server.Sql.Chats.notify chat.Server.Sql.Messages.insert_message
    chat.Server.Sql.Messages.put_message chat.Server.Sql.Messages.announce chat.Base.as_i64
    chat.Base.as_u64 chat.Server.Services.Users.create chat.Server.Services.Users.find_by_email
    chat.Server.Sql.Users.select_user_by_email chat.Server.Services.Users.create_unless
    chat.Server.Sql.Users.user_by_email chat.Server.Services.Users.create_new
    chat.Server.Services.Ws.find_by_name chat.Server.Sql.Workspaces.select_workspace_by_name
    chat.Server.Services.Users.workspace_for chat.Server.Sql.Workspaces.workspace_by_name
    chat.Server.Services.Users.hash_password chat.Server.Services.Users.take_over
    chat.Server.Services.Ws.update_owner chat.Server.Sql.Workspaces.update_workspace_owner
    chat.Server.Sql.Workspaces.workspace_by_id chat.Server.Sql.Workspaces.belongs
    chat.Server.Sql.Workspaces.user_by_id chat.Server.World.◌>>◌ chat.Server.Services.Users.verify
    chat.Server.Services.Users.check_password chat.Server.Services.Users.verify_password
    chat.Server.Services.Ws.create chat.Server.Services.Ws.fetch_all_chat_users
    chat.Server.Sql.Workspaces.select_workspace_users chat.Server.Sql.Workspaces.place_user
    chat.Server.Sql.Workspaces.order_asc
workspace_tests = (refl, (refl, (refl, tt)))
