-- ===== src/Suite/Admission.antt =====
-- The tests of chat_core/src/utils/jwt.rs, chat_core/src/middlewares/auth.rs and
-- chat_server/src/middlewares/perm.rs.
use chat.Base.{
  ℕ, ◌≡◌, refl, pos, eq_ℤ, text_eq, Text, codes, Bool, true, false, ◌&&◌, ◌==◌, if◌then◌else◌,
  Option, none, some, List, [], ◌∷◌, All,
}
use chat.Core.{User, user_new}
use chat.Core.Jwt
use chat.Core.Jwt.{Keys, serialized, jwt_duration}
use chat.Core.Auth.{verify_token_v2}
use chat.Http.{Response, respond_with, text}
use chat.Server.Error.{Result, ok, err, panic}
use chat.Server.World.{Env, World}
use chat.Server.Handlers.{App}
use chat.Server.Handlers.Perm.{verify_chat_perm}
use chat.Suite.{passes, same_name}
use chat.Suite.Fixture.{get_test_pool, test_env}

-- the pair of keys of the tests, whose tokens are known to be of the user with id 1
abbrev pub test_keys : User → Keys
test_keys user = record {
  sign_claims = λ c. ok (codes "good-token");
  verify_claims = λ token o.
      if text_eq token (codes "good-token")
      then ok (record {
        custom = serialized user;
        valid_for = jwt_duration;
        issuer = o.allowed_issuer;
        audience = o.allowed_audience;
      })
      else err (codes "bad token");
}

abbrev same_user : User → User → Bool
same_user a b =
    eq_ℤ a.id b.id
    && (eq_ℤ a.ws_id b.ws_id
        && (text_eq a.fullname b.fullname
            && (text_eq a.email b.email
                && (same_name a.password_hash b.password_hash && a.created_at == b.created_at))))

-- what `?` makes of a result
abbrev pub given : {A : Type 0} → (A → Bool) → Result Text A → Bool
given f (ok a) = f a
given f (err e) = false
given f panic = false

unfoldable pub jwt_sign_verify_should_work : Env → Bool
jwt_sign_verify_should_work env =
    let user = user_new 0 (pos 1) (codes "jack") (codes "admin@admin.com") in
    let keys = test_keys user in
    given (λ token. given (same_user user) (Jwt.verify keys token)) (Jwt.sign keys user)

-- the response's status, where the stack gives one
abbrev has_status : ℕ → Option Response → Bool
has_status n none = false
has_status n (some r) = r.status == n

-- the router of the test: `handler` behind the layer
abbrev hello_router : Keys → (bearer query : Option Text) → Option Response
hello_router keys bearer query =
    verify_token_v2 (λ r. some r) none (Jwt.verify keys) bearer query
      (λ user. some (respond_with 200 (text (codes "hello"))))

unfoldable pub verify_token_middleware_should_work : Env → Bool
verify_token_middleware_should_work env =
    let user = user_new 0 (pos 1) (codes "jack") (codes "jack@admin") in
    let keys = test_keys user in
    given
      (λ token.
        has_status 200 (hello_router keys (some token) none)
        && (has_status 200 (hello_router keys none (some token))
            && (has_status 400 (hello_router keys none none)
                && has_status 401 (hello_router keys (some (codes "bad-token")) none))))
      (Jwt.sign keys user)

abbrev perm_status : ℕ → Result Text Response × World → Bool
perm_status n (ok r, w) = r.status == n
perm_status n (err e, w) = false
perm_status n (panic, w) = false

-- the router of the test: `handler` behind both layers
abbrev perm_router : App → (token : Text) → (chat_id : ℕ) → World → Result Text Response × World
perm_router app token chat_id =
    verify_token_v2 (λ r w. (ok r, w)) (λ w. (panic, w)) (Jwt.verify app.keys) (some token) none
      (λ user.
        verify_chat_perm app chat_id user (λ w. (ok (respond_with 200 (text (codes "hello"))), w)))

unfoldable pub verify_chat_perm_middleware_should_work : Env → Bool
verify_chat_perm_middleware_should_work env =
    let user = user_new 0 (pos 1) (codes "jack") (codes "jack@gmail.com") in
    let app : App = record {
      env = env;
      keys = test_keys user;
      base_dir = codes "/tmp/chat_server";
    } in
    given
      (λ token.
        perm_status 200 (perm_router app token 4 (get_test_pool env))
        && perm_status 403 (perm_router app token 5 (get_test_pool env)))
      (Jwt.sign app.keys user)

-- every test of the file passes
admission_tests :
    All
      (λ (test : Env → Bool). test test_env ≡ true)
      (jwt_sign_verify_should_work ∷ verify_token_middleware_should_work
        ∷ verify_chat_perm_middleware_should_work ∷ [])
unfolding jwt_sign_verify_should_work verify_token_middleware_should_work
    verify_chat_perm_middleware_should_work same_name user_new Jwt.sign Jwt.verify verify_token_v2
    chat.Core.Auth.verify_found chat.Core.Auth.with_user chat.Core.Auth.token_of verify_chat_perm
    chat.Server.Handlers.Perm.admit chat.Server.Handlers.into_response chat.Server.Error.status_of
    chat.Server.Services.Chats.is_chat_member chat.Server.Sql.Chats.select_membership
    chat.Suite.passes chat.Suite.refuses chat.Suite.unwrap chat.Suite.same_type get_test_pool
    chat.Suite.Fixture.fixture chat.Suite.Fixture.execute chat.Server.World.◌>>=◌
    chat.Server.World.query chat.Server.Sql.Rows.nextval chat.Server.Sql.Rows.drop_chars
    chat.Server.Sql.Rows.fit chat.Server.Sql.Rows.fit_null chat.Server.Sql.Rows.take_chars
    chat.Server.Sql.Workspaces.insert_workspace chat.Server.Sql.Workspaces.put_workspace
    chat.Server.Sql.Workspaces.workspace_row chat.Server.Sql.Users.insert_user
    chat.Server.Sql.Users.put_user chat.Server.Sql.Users.user_row chat.Server.Sql.Chats.insert_chat
    chat.Server.Sql.Chats.put_chat chat.Server.Sql.Chats.chat_row chat.Server.Sql.Chats.chat_by_id
    chat.Server.Sql.Chats.notify chat.Server.Sql.Messages.insert_message
    chat.Server.Sql.Messages.put_message chat.Server.Sql.Messages.announce chat.Base.as_i64
    chat.Base.as_u64
admission_tests = (refl, (refl, (refl, tt)))
