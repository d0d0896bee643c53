-- ===== src/Config.antt =====
-- Which configuration a server loads: `try_load` of chat_server/src/config.rs and `load` of
-- notify_server/src/config.rs, which differ in the type of the configuration and in the three places.
-- `File::open` and serde_yaml are parameters.
use chat.Base.{ℕ, Text, codes, Option, none, some}
use chat.Server.Error.{Result, ok, err, panic}

pub record ServerConfig : Type 0 where
  pub port : ℕ
  pub db_url : Text
  pub base_dir : Text

pub record AuthConfig : Type 0 where
  pub sk : Text
  pub pk : Text

pub record AppConfig : Type 0 where
  pub server : ServerConfig
  pub auth : AuthConfig

-- the three of notify_server/src/config.rs
pub record NotifyServerConfig : Type 0 where
  pub port : ℕ
  pub db_url : Text

pub record NotifyAuthConfig : Type 0 where
  pub pk : Text

pub record NotifyConfig : Type 0 where
  pub server : NotifyServerConfig
  pub auth : NotifyAuthConfig

-- the two files and the environment variable
pub record Places : Type 0 where
  pub beside : Text
  pub installed : Text
  pub variable : Text

abbrev pub chat_places : Places
chat_places = record {
  beside = codes "./app.yml";
  installed = codes "/etc/config/app.yml";
  variable = codes "CHAT_CONFIG";
}

abbrev pub notify_places : Places
notify_places = record {
  beside = codes "./notify.yml";
  installed = codes "/etc/config/notify.yml";
  variable = codes "NOTIFY_CONFIG";
}

module _ {A : Type 0} (parse : Text → Result Text A) (open_file : Text → Result Text Text)
    (var : Text → Option Text) where
  abbrev read_named : Result Text Text → Result Text A
  read_named (ok text) = parse text
  read_named (err e) = err e
  read_named panic = panic

  -- the match on the three results, of which the first that is there decides
  unfoldable pub select_config : (beside installed : Result Text Text) → Option Text → Result Text A
  select_config (ok text) installed path = parse text
  select_config _ (ok text) path = parse text
  select_config _ _ (some path) = read_named (open_file path)
  select_config _ _ none = err (codes "no config file found")

  -- `AppConfig::try_load`, `AppConfig::load`
  unfoldable pub load_config : Places → Result Text A
  load_config p = select_config (open_file p.beside) (open_file p.installed) (var p.variable)
