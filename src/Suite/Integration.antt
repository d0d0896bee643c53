-- ===== src/Suite/Integration.antt =====
-- The test of both servers: chat_test/tests/chat.rs. The HTTP client is the router's function; the
-- payload of a notification stands for the notification, as a parser reads it back.
use chat.Base.{
  ℕ, zero, suc, ◌≡◌, refl, ℤ, pos, eq_ℤ, as_u64, Text, text_eq, codes, Bool, true, false, ◌&&◌,
  ◌==◌, if◌then◌else◌, Option, none, some, List, [], ◌∷◌, ◌++◌, length, drop, all, select,
}
use chat.Core.{User, Chat, Message, private_channel}
use chat.Http.{Response, Body, auth_output, one_chat, all_urls, one_message}
use chat.Strings.{to_text}
use chat.Server.Error.{AppError, any_error, Result, ok, err, panic}
use chat.Server.World.{Env, World, M, Notice, chat_updated, chat_message_created, pure, ◌>>=◌}
use chat.Server.Handlers.{App}
use chat.Server.Handlers.Files.{part}
use chat.Server.Handlers.Router.{
  Route, route, signin, with_token, create_chat, upload, on_chat, send_message,
}
use chat.Notify.Notif.{Json, AppEvent, new_chat, add_to_chat, remove_from_chat, new_message}
use chat.Notify.Sse.{Incoming, notified, UserMap, listen, event_name}
use chat.Notify.Router
use chat.Notify.Router.{Outcome, listening, responded, crashed, events}
use chat.Suite.{passes, same_type, same_name, unwrap}
use chat.Suite.Fixture.{get_test_pool, test_env}
use chat.Suite.Users.{new_signin}
use chat.Suite.Messages.{message_input, same_files}
use chat.Suite.Admission.{test_keys}

abbrev same_ids : List ℤ → List ℤ → Bool
same_ids [] [] = true
same_ids (a ∷ xs) (b ∷ ys) = eq_ℤ a b && same_ids xs ys
same_ids [] (b ∷ ys) = false
same_ids (a ∷ xs) [] = false

-- `send().await?` of a request
unfoldable pub send : App → Route → M Response
send app r w = elim (route app r w).0 [
  | ok answer ↦ (ok answer, (route app r w).1)
  | err e ↦ (err (any_error e), (route app r w).1)
  | panic ↦ (panic, (route app r w).1)
]

-- `assert_eq!(resp.status(), …)`
unfoldable pub expect_status : ℕ → Response → M Body
expect_status n r w = if r.status == n then (ok r.body, w) else (panic, w)

-- `assert_eq!` of a Bool
unfoldable pub assert : Bool → M (Unit {0})
assert true w = (ok tt, w)
assert false w = (panic, w)

-- `resp.json().await?` at the types of the test
abbrev token_of_body : Body → Option Text
token_of_body (auth_output token) = some token
token_of_body _ = none

abbrev chat_of_body : Body → Option Chat
chat_of_body (one_chat c) = some c
chat_of_body _ = none

abbrev urls_of_body : Body → Option (List Text)
urls_of_body (all_urls urls) = some urls
urls_of_body _ = none

abbrev message_of_body : Body → Option Message
message_of_body (one_message m) = some m
message_of_body _ = none

-- `ChatServer::signin`
unfoldable pub sign_in : App → M Text
sign_in app = do
  resp ← send app (signin (new_signin (codes "jack1@gmail.com") (codes "Hunter48")))
  body ← expect_status 200 resp
  unwrap (token_of_body body)

-- `ChatServer::create_chat`
unfoldable pub create_test_chat : App → (token : Text) → M Chat
create_test_chat app token = do
  resp ← send app (
      with_token (some token) none (
        create_chat
          (record { name = some (codes "test"); members = pos 1 ∷ pos 2 ∷ []; public = false })))
  body ← expect_status 201 resp
  c ← unwrap (chat_of_body body)
  _ ← assert (same_ids c.members (pos 1 ∷ pos 2 ∷ []) && same_type c.type private_channel)
  pure c

-- `ChatServer::create_message`; `bytes` is the file Cargo.toml
unfoldable pub create_test_message : App → (token bytes : Text) → (chat_id : ℕ) → M Message
create_test_message app token bytes chat_id = do
  uploaded ←
      send app
        (with_token (some token) none (upload (part (some (codes "Cargo.toml")) (some bytes) ∷ [])))
  body ← expect_status 200 uploaded
  urls ← unwrap (urls_of_body body)
  resp ← send app (
      with_token (some token) none
        (on_chat chat_id (send_message (message_input (codes "hello") urls))))
  answer ← expect_status 201 resp
  m ← unwrap (message_of_body answer)
  _ ← assert (
      text_eq m.content (codes "hello")
      && (same_files m.files urls && (eq_ℤ m.sender_id (pos 1) && as_u64 m.chat_id == chat_id)))
  pure m

-- the arms of the test's match on the event's name
unfoldable pub is_expected : AppEvent → Bool
is_expected (new_chat c) =
    same_name c.name (some (codes "test"))
    && (same_ids c.members (pos 1 ∷ pos 2 ∷ []) && same_type c.type private_channel)
is_expected (new_message m) =
    text_eq m.content (codes "hello") && (length m.files == 1 && eq_ℤ m.sender_id (pos 1))
is_expected (add_to_chat _) = false
is_expected (remove_from_chat _) = false

-- the notification at a place, for which its place stands as the payload
abbrev at : Text → ℕ → List Notice → Option Notice
at payload i [] = none
at payload i (n ∷ ns) = if text_eq payload (to_text i) then some n else at payload (suc i) ns

abbrev json_of : List Notice → Json
json_of ns = record {
  chat_updated = λ payload. elim (at payload 0 ns) [
    | some (chat_updated op old new) ↦ ok (record { op = op; old = old; new = new })
    | some (chat_message_created m members) ↦ err (codes "missing field `op`")
    | none ↦ err (codes "expected value")
  ];
  chat_message_created = λ payload. elim (at payload 0 ns) [
    | some (chat_updated op old new) ↦ err (codes "missing field `message`")
    | some (chat_message_created m members) ↦ ok (record { message = m; members = members })
    | none ↦ err (codes "expected value")
  ];
}

abbrev incoming : ℕ → UserMap → List Notice → List (Incoming × UserMap)
incoming i users [] = []
incoming i users (chat_updated op old new ∷ ns) =
    (notified (codes "chat_updated") (to_text i), users) ∷ incoming (suc i) users ns
incoming i users (chat_message_created m members ∷ ns) =
    (notified (codes "chat_message_created") (to_text i), users) ∷ incoming (suc i) users ns

-- the events that the test's client reads from `/events?token=…`
abbrev read_by : Outcome → UserMap → List Notice → List AppEvent
read_by (responded r) users ns = []
read_by crashed users ns = []
read_by (listening tx) users ns = received (listen (json_of ns) (incoming 0 users ns))
  where
    received : List (ℕ × AppEvent) → List AppEvent
    received [] = []
    received ((to, e) ∷ sent) = if to == tx then e ∷ received sent else received sent

abbrev jack1 : User
jack1 = record {
  id = pos 1;
  ws_id = pos 1;
  fullname = codes "jack1";
  email = codes "jack1@gmail.com";
  password_hash = none;
  created_at = 0;
}

-- the notifications sent since `w`, as the statements of the fixture are past when the client listens
unfoldable pub notices_since : World → World → List Notice
notices_since w v = drop (length w.tables.notices) v.tables.notices

-- `chat_server_should_work`: the events read, if the requests go as the test asserts. The client listens
-- from the sign-in on, so the map of senders is the same for all notifications of the requests.
unfoldable pub chat_server_should_work : Env → (bytes : Text) → Option (List AppEvent)
chat_server_should_work env bytes =
    let app : App = record {
      env = env;
      keys = test_keys jack1;
      base_dir = codes "/tmp/chat_server";
    } in
    let start = get_test_pool env in
    let (r, w) =
      (do
        token ← sign_in app
        c ← create_test_chat app token
        m ← create_test_message app token bytes (as_u64 c.id)
        pure token)
        start in
    elim r [
      | ok token ↦
          let (outcome, users) = Router.route app.keys [] 0 (events none (some token)) [] in
          some (read_by outcome users (notices_since start w))
      | err e ↦ none
      | panic ↦ none
    ]

-- the client reads a chat and then a message, each as expected
abbrev as_expected : Option (List AppEvent) → Bool
as_expected none = false
as_expected (some es) = length es == 2 && all is_expected es

chat_server_test : as_expected (chat_server_should_work test_env (codes "[package]")) ≡ true
unfolding chat_server_should_work notices_since is_expected create_test_message create_test_chat
    sign_in assert expect_status send chat.Suite.passes chat.Suite.refuses chat.Suite.unwrap
    chat.Suite.same_type chat.Suite.same_name get_test_pool chat.Suite.Fixture.fixture
    chat.Suite.Fixture.execute chat.Server.World.◌>>=◌ chat.Server.World.query
    chat.Server.Sql.Rows.nextval chat.Server.Sql.Rows.drop_chars chat.Server.Sql.Rows.fit
    chat.Server.Sql.Rows.fit_null chat.Server.Sql.Rows.take_chars
    chat.Server.Sql.Workspaces.insert_workspace chat.Server.Sql.Workspaces.put_workspace
    chat.Server.Sql.Workspaces.workspace_row chat.Server.Sql.Users.insert_user
    chat.Server.Sql.Users.put_user chat.Server.Sql.Users.user_row chat.Server.Sql.Chats.insert_chat
    chat.Server.Sql.Chats.put_chat chat.Server.Sql.Chats.chat_row chat.Server.Sql.Chats.chat_by_id
    chat.Server.Sql.Chats.notify chat.Server.Sql.Messages.insert_message
    chat.Server.Sql.Messages.put_message chat.Server.Sql.Messages.announce chat.Base.as_i64
    chat.Base.as_u64 chat.Server.Services.Users.create chat.Server.Services.Users.find_by_email
    chat.Server.Sql.Users.select_user_by_email chat.Server.Services.Users.create_unless
    chat.Server.Sql.Users.user_by_email chat.Server.Services.Users.create_new
    chat.Server.Services.Ws.find_by_name chat.Server.Sql.Workspaces.select_workspace_by_name
    chat.Server.Services.Users.workspace_for chat.Server.Sql.Workspaces.workspace_by_name
    chat.Server.Services.Users.hash_password chat.Server.Services.Users.take_over
    chat.Server.Services.Ws.update_owner chat.Server.Sql.Workspaces.update_workspace_owner
    chat.Server.Sql.Workspaces.workspace_by_id chat.Server.Sql.Workspaces.belongs
    chat.Server.Sql.Workspaces.user_by_id chat.Server.World.◌>>◌ chat.Server.Services.Users.verify
    chat.Server.Services.Users.check_password chat.Server.Services.Users.verify_password
    chat.Server.ChatFile.from_str chat.Server.ChatFile.parse_url chat.Strings.strip_prefix
    chat.Strings.split chat.Strings.parse_u64 chat.Strings.scan_some chat.Strings.scan
    chat.Server.ChatFile.path chat.Server.ChatFile.hash_to_path chat.Strings.split_at
    chat.Strings.emit chat.Strings.join chat.Strings.to_text chat.Server.ChatFile.new
    chat.Server.ChatFile.extension chat.Strings.rsplit_once chat.Server.ChatFile.url
    chat.Server.Services.Chats.create chat.Server.Services.Chats.create_unless
    chat.Server.Services.Chats.refusal chat.Server.Services.Chats.create_with
    chat.Server.Services.Chats.chat_type chat.Server.Services.Users.fetch_by_ids
    chat.Server.Sql.Users.select_users_by_ids chat.Server.Services.Chats.is_chat_member
    chat.Server.Sql.Chats.select_membership chat.Server.Services.Msgs.create
    chat.Server.Services.Msgs.create_with chat.Server.Services.Msgs.check_files
    chat.Server.Services.Msgs.check_file chat.Server.Services.Msgs.lift
    chat.Server.Services.Msgs.check_path chat.Server.Services.Msgs.exists route
    chat.Server.Handlers.Router.user_handler chat.Server.Handlers.Router.chat_handler
    chat.Server.Handlers.Router.verify_app_token chat.Core.Auth.verify_token_v2
    chat.Core.Auth.verify_found chat.Core.Auth.with_user chat.Core.Auth.token_of chat.Core.Jwt.sign
    chat.Core.Jwt.verify chat.Server.Handlers.Perm.verify_chat_perm chat.Server.Handlers.Perm.admit
    chat.Server.Handlers.into_response chat.Server.Error.status_of
    chat.Server.Handlers.Accounts.signin_handler chat.Server.Handlers.Accounts.signed_in
    chat.Server.Handlers.Accounts.token_response
    chat.Server.Handlers.Conversations.create_chat_handler
    chat.Server.Handlers.Conversations.send_message_handler
    chat.Server.Handlers.Files.upload_handler chat.Server.Handlers.Files.upload_all
    chat.Server.Handlers.Files.upload_field chat.Server.Handlers.Files.put_file
    chat.Server.Handlers.Files.store chat.Server.Handlers.Files.write
    chat.Server.Handlers.Files.parents listen chat.Notify.Sse.send_all chat.Notify.Sse.get
    chat.Notify.Sse.insert chat.Notify.Sse.enter chat.Notify.Sse.sse_handler chat.Notify.Notif.load
    chat.Notify.Notif.of_chat_updated chat.Notify.Notif.of_chat_message_created
    chat.Notify.Notif.event_of chat.Notify.Notif.get_affected_chat_user_ids chat.Notify.Sets.collect
    chat.Notify.Sets.insert chat.Notify.Sets.contains chat.Notify.Sets.union chat.Notify.Sets.equal
    Router.route Router.verify_token
chat_server_test = refl
