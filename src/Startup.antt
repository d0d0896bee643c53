-- ===== src/Startup.antt =====
-- The start of both servers: main.rs of chat_server and notify_server, `try_new` of
-- chat_server/src/lib.rs, `AppState::new` of notify_server/src/lib.rs, `setup_pg_listener` up to its
-- task, and the loading of keys in chat_core/src/utils/jwt.rs.
pub mod Order
use chat.Base.{ℕ, Text, codes, Option, none, some, List, [], ◌∷◌, ◌++◌}
use chat.Config.{AppConfig, AuthConfig, NotifyConfig, load_config, chat_places, notify_places}
use chat.Core.Jwt.{Keys, Claims, VerificationOptions}
use chat.Server.Error.{AppError, any_error, Result, ok, err, panic}
use chat.Server.World.{Env}
use chat.Server.Handlers.{App}
use chat.Strings.{to_text}

-- what a server asks of its surroundings, in the order asked
pub data Effect : Type 0 where
  makes_dir connects binds : Text → Effect
  listens : (url channel : Text) → Effect
  serves : Effect

-- The surroundings: how an effect fails, if it does; configuration files; jwt_simple's `from_pem`.
pub record Host : Type 0 where
  pub failure : Effect → Option Text
  pub open_file : Text → Result Text Text
  pub var : Text → Option Text
  pub parse_config : Text → Result Text AppConfig
  pub parse_notify_config : Text → Result Text NotifyConfig
  pub signing_key : Text → Result Text (Claims → Result Text Text)
  pub verifying_key : Text → Result Text (Text → VerificationOptions → Result Text Claims)

-- a step of the start: its result, and the effects asked so far
abbrev pub Start : Type 0 → Type 0
Start A = List Effect → Result Text A × List Effect

module _ {A : Type 0} where
  unfoldable pub result : Result Text A → Start A
  result r done = (r, done)

  -- `.context(…)`: the text shown is the one given
  unfoldable pub context : Text → Result Text A → Result Text A
  context message (ok a) = ok a
  context message (err e) = err message
  context message panic = panic

  -- `.expect(…)`
  unfoldable pub or_panic : Result Text A → Result Text A
  or_panic (ok a) = ok a
  or_panic (err e) = panic
  or_panic panic = panic

-- what follows a step that has returned
abbrev pub resume :
    {A B : Type 0} → (A → Start B) → Result Text A × List Effect → Result Text B × List Effect
resume k (ok a, done) = k a done
resume k (err e, done) = (err e, done)
resume k (panic, done) = (panic, done)

infixl 5 ◌>>=◌
abbrev pub ◌>>=◌ : {A B : Type 0} → Start A → (A → Start B) → Start B
(m >>= k) done = resume k (m done)

module _ (host : Host) where
  abbrev outcome : Option Text → Result Text (Unit {0})
  outcome none = ok tt
  outcome (some e) = err e

  unfoldable pub ask : Effect → Start (Unit {0})
  ask effect done = (outcome (host.failure effect), done ++ effect ∷ [])

  -- the same with a context
  unfoldable pub ask_or : Text → Effect → Start (Unit {0})
  ask_or message effect done =
      (context message (outcome (host.failure effect)), done ++ effect ∷ [])

  -- `AppState::load_key`: the public key first
  unfoldable pub load_key : AuthConfig → Start Keys
  load_key conf = do
    dk ← result (context (codes "load pk failed") (host.verifying_key conf.pk))
    ek ← result (context (codes "load sk failed") (host.signing_key conf.sk))
    result (ok (record { sign_claims = ek; verify_claims = dk }))

  -- `AppState::try_new`
  unfoldable pub try_new : Env → AppConfig → Start App
  try_new env config = do
    _ ← ask_or (codes "create base_dir failed") (makes_dir config.server.base_dir)
    keys ← load_key config.auth
    _ ← ask_or (codes "connect db failed") (connects config.server.db_url)
    result (ok (record { env = env; keys = keys; base_dir = config.server.base_dir }))

  -- `main` of chat_server, up to the end of serving
  unfoldable pub chat_main : Env → Start (Unit {0})
  chat_main env = do
    config ← result (load_config host.parse_config host.open_file host.var chat_places)
    app ← try_new env config
    _ ← ask (binds (codes "0.0.0.0:" ++ to_text config.server.port))
    ask serves

  -- `setup_pg_listener` before its task
  unfoldable pub setup_pg_listener : (db_url : Text) → Start (Unit {0})
  setup_pg_listener db_url = do
    _ ← ask (connects db_url)
    _ ← ask (listens db_url (codes "chat_updated"))
    ask (listens db_url (codes "chat_message_created"))

  -- `AppState::new` and `get_router` of notify_server
  unfoldable pub get_router : NotifyConfig → Start (Unit {0})
  get_router config = do
    dk ← result (or_panic (host.verifying_key config.auth.pk))
    setup_pg_listener config.server.db_url

  -- `main` of notify_server
  unfoldable pub notify_main : Start (Unit {0})
  notify_main = do
    config ←
        result
          (or_panic (load_config host.parse_notify_config host.open_file host.var notify_places))
    _ ← get_router config
    _ ← ask (binds (codes "0.0.0.0:6687"))
    ask serves
