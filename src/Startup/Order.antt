-- ===== src/Startup/Order.antt =====
-- In which order the servers start, and where they stop.
use chat.Base.{◌≡◌, refl, sym, ap, ◌∙◌, Text, codes, List, [], ◌∷◌, ◌++◌, append_assoc, append-nil}
use chat.Config.{AppConfig, AuthConfig, NotifyConfig, load_config, chat_places, notify_places}
use chat.Server.Error.{Result, ok, err, panic}
use chat.Server.World.{Env}
use chat.Startup.{
  Effect, makes_dir, connects, binds, listens, serves, Host, Start, ask, ask_or, load_key, try_new,
  chat_main, setup_pg_listener, get_router, notify_main, result, or_panic, resume, ◌>>=◌,
}
use chat.Strings.{to_text}

-- What has been asked, if these effects were to come after `done`: all of them if the step has
-- returned, and in any case the first ones of them only.
abbrev pub Asked : {A : Type 0} → List Effect → List Effect → Result Text A × List Effect → Type 0
Asked effects done (ok a, now) = now ≡ done ++ effects
Asked effects done (err e, now) =
    (made : List Effect) × (rest : List Effect) × (effects ≡ made ++ rest) × (now ≡ done ++ made)
Asked effects done (panic, now) =
    (made : List Effect) × (rest : List Effect) × (effects ≡ made ++ rest) × (now ≡ done ++ made)

abbrev Asks : {A : Type 0} → List Effect → Start A → Type 0
Asks effects m = (done : List Effect) → Asked effects done (m done)

-- the effects of the chat server's start
abbrev pub chat_effects : AppConfig → List Effect
chat_effects config =
    makes_dir config.server.base_dir
    ∷ connects config.server.db_url
    ∷ binds (codes "0.0.0.0:" ++ to_text config.server.port)
    ∷ serves
    ∷ []

-- the effects of the notify server's start
abbrev pub notify_effects : NotifyConfig → List Effect
notify_effects config =
    connects config.server.db_url
    ∷ listens config.server.db_url (codes "chat_updated")
    ∷ listens config.server.db_url (codes "chat_message_created")
    ∷ binds (codes "0.0.0.0:6687")
    ∷ serves
    ∷ []

-- the first ones of what is to be asked
abbrev First : List Effect → List Effect → List Effect → Type 0
First effects done now =
    (made : List Effect) × (rest : List Effect) × (effects ≡ made ++ rest) × (now ≡ done ++ made)

later :
    (es fs done now now' : List Effect)
    → now ≡ done ++ es
    → First fs now now'
    → First (es ++ fs) done now'
later es fs done now now' e (made, rest, f, n) = (
  es ++ made,
  rest,
  ap (λ x. es ++ x) f ∙ sym (append_assoc es made rest),
  n ∙ ap (λ x. x ++ made) e ∙ append_assoc done es made,
)

earlier : (es fs done now : List Effect) → First es done now → First (es ++ fs) done now
earlier es fs done now (made, rest, f, n) =
    (made, rest ++ fs, ap (λ x. x ++ fs) f ∙ append_assoc made rest fs, n)

Asks-result : {A : Type 0} (r : Result Text A) → Asks [] (result r)
unfolding result
Asks-result (ok a) done = sym (append-nil done)
Asks-result (err e) done = ([], [], refl, sym (append-nil done))
Asks-result panic done = ([], [], refl, sym (append-nil done))

module _ {A B : Type 0} (es fs : List Effect) (k : A → Start B) where
  Asked-later :
      (done now : List Effect) (q : Result Text B × List Effect)
      → now ≡ done ++ es
      → Asked fs now q
      → Asked (es ++ fs) done q
  Asked-later done now (ok b, now') e h = h ∙ ap (λ x. x ++ fs) e ∙ append_assoc done es fs
  Asked-later done now (err x, now') e h = later es fs done now now' e h
  Asked-later done now (panic, now') e h = later es fs done now now' e h

  Asked-resume :
      (done : List Effect) (p : Result Text A × List Effect)
      → Asked es done p
      → ((a : A) → Asks fs (k a))
      → Asked (es ++ fs) done (resume k p)
  Asked-resume done (ok a, now) h g = Asked-later done now (k a now) h (g a now)
  Asked-resume done (err e, now) h g = earlier es fs done now h
  Asked-resume done (panic, now) h g = earlier es fs done now h

  Asks->>= : (m : Start A) → Asks es m → ((a : A) → Asks fs (k a)) → Asks (es ++ fs) (m >>= k)
  Asks->>= m h g done = Asked-resume done (m done) (h done) g

module _ (host : Host) where
  Asked-effect :
      (effect : Effect) (done : List Effect) (r : Result Text (Unit {0}))
      → Asked (effect ∷ []) done (r, done ++ effect ∷ [])
  Asked-effect effect done (ok a) = refl
  Asked-effect effect done (err e) = (effect ∷ [], [], refl, refl)
  Asked-effect effect done panic = (effect ∷ [], [], refl, refl)

  Asks-ask : (effect : Effect) → Asks (effect ∷ []) (ask host effect)
  unfolding ask
  Asks-ask effect done = Asked-effect effect done _

  Asks-ask_or : (message : Text) (effect : Effect) → Asks (effect ∷ []) (ask_or host message effect)
  unfolding ask_or
  Asks-ask_or message effect done = Asked-effect effect done _

  load_key-Asks : (conf : AuthConfig) → Asks [] (load_key host conf)
  unfolding load_key
  load_key-Asks conf =
      Asks->>= [] [] _ _ (Asks-result _)
        (λ dk. Asks->>= [] [] _ _ (Asks-result _) (λ ek. Asks-result _))

  try_new-Asks :
      (env : Env) (config : AppConfig)
      → Asks
          (makes_dir config.server.base_dir ∷ connects config.server.db_url ∷ [])
          (try_new host env config)
  unfolding try_new
  try_new-Asks env config =
      Asks->>= (makes_dir _ ∷ []) (connects _ ∷ []) _ _ (Asks-ask_or _ _) (λ _.
        Asks->>= [] (connects _ ∷ []) _ _ (load_key-Asks config.auth)
          (λ keys. Asks->>= (connects _ ∷ []) [] _ _ (Asks-ask_or _ _) (λ _. Asks-result _)))

  chat_main-Asks :
      (env : Env) (config : AppConfig)
      → load_config host.parse_config host.open_file host.var chat_places ≡ ok config
      → Asks (chat_effects config) (chat_main host env)
  unfolding chat_main result try_new
  chat_main-Asks env config loaded done = rw loaded (
      Asks->>= (makes_dir _ ∷ connects _ ∷ []) (binds _ ∷ serves ∷ []) _ _ (try_new-Asks env config)
        (λ app. Asks->>= (binds _ ∷ []) (serves ∷ []) _ _ (Asks-ask _) (λ _. Asks-ask _)) done)

  get_router-Asks :
      (config : NotifyConfig)
      → Asks
          (connects config.server.db_url
            ∷ listens config.server.db_url (codes "chat_updated")
            ∷ listens config.server.db_url (codes "chat_message_created")
            ∷ [])
          (get_router host config)
  unfolding get_router setup_pg_listener
  get_router-Asks config =
      Asks->>= [] (connects _ ∷ listens _ _ ∷ listens _ _ ∷ []) _ _ (Asks-result _) (λ dk.
        Asks->>= (connects _ ∷ []) (listens _ _ ∷ listens _ _ ∷ []) _ _ (Asks-ask _)
          (λ _. Asks->>= (listens _ _ ∷ []) (listens _ _ ∷ []) _ _ (Asks-ask _) (λ _. Asks-ask _)))

  notify_main-Asks :
      (config : NotifyConfig)
      → load_config host.parse_notify_config host.open_file host.var notify_places ≡ ok config
      → Asks (notify_effects config) (notify_main host)
  unfolding notify_main or_panic result get_router
  notify_main-Asks config loaded done = rw loaded (
      Asks->>= (connects _ ∷ listens _ _ ∷ listens _ _ ∷ []) (binds _ ∷ serves ∷ []) _ _
        (get_router-Asks config)
        (λ _. Asks->>= (binds _ ∷ []) (serves ∷ []) _ _ (Asks-ask _) (λ _. Asks-ask _)) done)

-- Once its configuration is loaded, the chat server asks for the directory of its files, the database,
-- the port of the configuration and requests, and the notify server for the database, its two channels,
-- port 6687 and requests: each in that order, for all of them if the start returns, and otherwise only
-- for the first ones, up to some point.
pub main-Asked :
    (host : Host) (env : Env) (config : AppConfig) (notify_config : NotifyConfig)
    → load_config host.parse_config host.open_file host.var chat_places ≡ ok config
    → load_config host.parse_notify_config host.open_file host.var notify_places ≡ ok notify_config
    → Asked (chat_effects config) [] (chat_main host env [])
      × Asked (notify_effects notify_config) [] (notify_main host [])
main-Asked host env config notify_config loaded notify_loaded =
    (chat_main-Asks host env config loaded [], notify_main-Asks host notify_config notify_loaded [])
