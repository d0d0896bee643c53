-- ===== src/Tests/Startup.antt =====
-- Both servers started where all goes well.
use chat.Base.{refl, codes, none, []}
use chat.Config.{AppConfig, NotifyConfig}
use chat.Samples.{some_env}
use chat.Server.Error.{ok, err}
use chat.Startup.{Host, chat_main, notify_main}
use chat.Startup.Order.{main-Asked, Asked, chat_effects, notify_effects}

abbrev some_config : AppConfig
some_config = record {
  server = record {
    port = 6688;
    db_url = codes "postgres://db/chat";
    base_dir = codes "/tmp/chat";
  };
  auth = record { sk = codes "private"; pk = codes "public" };
}

abbrev some_notify_config : NotifyConfig
some_notify_config = record {
  server = record { port = 6687; db_url = codes "postgres://db/chat" };
  auth = record { pk = codes "public" };
}

-- a machine with the files that the servers look for first
abbrev some_host : Host
some_host = record {
  failure = λ effect. none;
  open_file = λ path. ok (codes "yaml");
  var = λ name. none;
  parse_config = λ text. ok some_config;
  parse_notify_config = λ text. ok some_notify_config;
  signing_key = λ pem. ok (λ c. ok (codes "token"));
  verifying_key = λ pem. ok (λ token o. err (codes "bad token"));
}

main-Asked_example :
    Asked (chat_effects some_config) [] (chat_main some_host some_env [])
    × Asked (notify_effects some_notify_config) [] (notify_main some_host [])
unfolding chat.Config.load_config chat.Config.select_config
main-Asked_example = main-Asked some_host some_env some_config some_notify_config refl refl
