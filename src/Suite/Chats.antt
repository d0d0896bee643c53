-- ===== src/Suite/Chats.antt =====
-- The tests of chat_server/src/services/chat.rs.
use chat.Base.{
  ℕ, ◌≡◌, refl, pos, eq_ℤ, codes, Bool, true, false, not, ◌&&◌, ◌==◌, Option, none, some, is_none,
  List, [], ◌∷◌, length, All, as_i64,
}
use chat.Core.{single, public_channel}
use chat.Server.Error.{AppError, permission_deny}
use chat.Server.World.{Env, M, pure, ◌>>=◌, ◌>>◌}
use chat.Server.Services.Chats.{create, update, delete, get_by_id, fetch_all, is_chat_member}
use chat.Suite.{passes, refuses, unwrap, same_type, same_name}
use chat.Suite.Fixture.{get_test_pool, test_env}

unfoldable pub create_single_chat_should_work : Env → Bool
create_single_chat_should_work env =
    passes
      (do
        c ← create env (record { name = none; members = pos 1 ∷ pos 2 ∷ []; public = false }) 1
        pure (eq_ℤ c.ws_id (pos 1) && (length c.members == 2 && same_type c.type single)))
      (get_test_pool env)

unfoldable pub create_public_name_chat_should_work : Env → Bool
create_public_name_chat_should_work env =
    passes
      (do
        c ←
            create env
              (record {
                name = some (codes "test");
                members = pos 1 ∷ pos 2 ∷ pos 3 ∷ [];
                public = true;
              })
              1
        pure (
            eq_ℤ c.ws_id (pos 1)
            && (length c.members == 3
                && (same_type c.type public_channel && same_name c.name (some (codes "test"))))))
      (get_test_pool env)

unfoldable pub chat_get_by_id_should_work : Env → Bool
chat_get_by_id_should_work env =
    passes
      (do
        found ← get_by_id 1
        c ← unwrap found
        pure (
            length c.members == 5
            && (same_name c.name (some (codes "general")) && eq_ℤ c.ws_id (pos 1))))
      (get_test_pool env)

unfoldable pub chat_get_all_should_work : Env → Bool
chat_get_all_should_work env =
    passes (do cs ← fetch_all env 1; pure (length cs == 4)) (get_test_pool env)

unfoldable pub chat_delete_should_work : Env → Bool
chat_delete_should_work env =
    passes
      (do
        c ← delete env 1 1
        found ← get_by_id 1
        pure (same_name c.name (some (codes "general")) && is_none found))
      (get_test_pool env)

abbrev is_denied : AppError → Bool
is_denied permission_deny = true
is_denied _ = false

unfoldable pub chat_delete_other_ws_chat_should_fail : Env → Bool
chat_delete_other_ws_chat_should_fail env =
    passes (refuses is_denied (delete env 2 1)) (get_test_pool env)

unfoldable pub chat_update_should_work : Env → Bool
chat_update_should_work env =
    passes
      (do
        _ ← update env (record { name = some (codes "test") }) 1 1
        found ← get_by_id 1
        c ← unwrap found
        pure (same_name c.name (some (codes "test"))))
      (get_test_pool env)

unfoldable pub chat_is_member_should_work : Env → Bool
chat_is_member_should_work env =
    passes (do first ← is_chat_member 1 1; sixth ← is_chat_member 1 6; pure (first && not sixth))
      (get_test_pool env)

-- every test of the file passes
chat_tests :
    All
      (λ (test : Env → Bool). test test_env ≡ true)
      (create_single_chat_should_work ∷ create_public_name_chat_should_work
        ∷ chat_get_by_id_should_work ∷ chat_get_all_should_work ∷ chat_delete_should_work
        ∷ chat_delete_other_ws_chat_should_fail ∷ chat_update_should_work
        ∷ chat_is_member_should_work ∷ [])
unfolding create_single_chat_should_work create_public_name_chat_should_work
    chat_get_by_id_should_work chat_get_all_should_work chat_delete_should_work
    chat_delete_other_ws_chat_should_fail chat_update_should_work chat_is_member_should_work passes
    refuses unwrap same_type same_name get_test_pool chat.Suite.Fixture.fixture
    chat.Suite.Fixture.execute ◌>>=◌ chat.Server.World.query chat.Server.Sql.Rows.nextval
    chat.Server.Sql.Rows.drop_chars chat.Server.Sql.Rows.fit chat.Server.Sql.Rows.fit_null
    chat.Server.Sql.Rows.take_chars chat.Server.Sql.Workspaces.insert_workspace
    chat.Server.Sql.Workspaces.put_workspace chat.Server.Sql.Workspaces.workspace_row
    chat.Server.Sql.Users.insert_user chat.Server.Sql.Users.put_user chat.Server.Sql.Users.user_row
    chat.Server.Sql.Chats.insert_chat chat.Server.Sql.Chats.put_chat chat.Server.Sql.Chats.chat_row
    chat.Server.Sql.Chats.chat_by_id chat.Server.Sql.Chats.notify
    chat.Server.Sql.Messages.insert_message chat.Server.Sql.Messages.put_message
    chat.Server.Sql.Messages.announce as_i64 chat.Base.as_u64 create update delete get_by_id
    fetch_all is_chat_member chat.Server.Services.Chats.create_unless
    chat.Server.Services.Chats.refusal chat.Server.Services.Chats.create_with
    chat.Server.Services.Chats.chat_type chat.Server.Services.Chats.within
    chat.Server.Services.Users.fetch_by_ids chat.Server.Sql.Users.select_users_by_ids
    chat.Server.Sql.Chats.select_chat chat.Server.Sql.Chats.select_chats_by_ws
    chat.Server.Sql.Chats.select_membership chat.Server.Sql.Chats.update_chat
    chat.Server.Sql.Chats.put_name chat.Server.Sql.Chats.delete_chat
chat_tests = (refl, (refl, (refl, (refl, (refl, (refl, (refl, (refl, tt))))))))
