-- ===== src/Tests/Config.antt =====
-- The theorem on internal/config/config.go, on a configuration with the Redis backend.
use go_pub_sub.Prelude.{inr, refl, Option, none, some, []}
use go_pub_sub.Prelude.Int.{pos}
use go_pub_sub.Text.{codes, bytes_eq}
use go_pub_sub.Go.{Error, external}
use go_pub_sub.Storage.Redis.Backend.{redis}
use go_pub_sub.Broker.{new_broker}
use go_pub_sub.Config.{
  Files, load_config, listened, start_server, Config, Backend, Connect, choose_store,
  add_default_topic, init_broker,
}
use go_pub_sub.Config.Init.{IsReady}
use go_pub_sub.Config.Start.{IsChosen, start_server-IsReady}
use go_pub_sub.Tests.{orders}
use go_pub_sub.Tests.Redis.{server, codec}
use go_pub_sub.Tests.Postgres.{database, empty}

abbrev connect : Connect
connect = record {
  codec = codec;
  new_client = λ addr pass db. record { R = server; state = []; ping = none };
  open_database =
      λ dsn. record { D = database; state = empty; opened = none; pinged = some (external 2) };
}

abbrev config : Config
config = record {
  port = pos 50051;
  store = record {
    type_ = codes "redis";
    data_dir = [];
    redis = record { addr = codes "localhost:6379"; pass = []; db = pos 0 };
    postgres = record { dsn = [] };
  };
  default_topic = orders;
  retention_ms = pos 0;
}

abbrev backend : Backend
backend = record { L = redis server codec (record { key_prefix = codes "gopub:" }); state = [] }

-- a file system with any file there, which the parser takes for the configuration
abbrev files : Files
files = record { read_file = λ path. inr path; unmarshal = λ data_. inr config }

start_server-IsReady_example :
    IsReady config backend
      (add_default_topic backend.L 7 config (new_broker backend.L backend.state))
    × IsChosen connect config backend
    × Path (Option Error) none none
unfolding start_server load_config listened init_broker choose_store bytes_eq
start_server-IsReady_example =
    start_server-IsReady files connect (λ port. none) 7 (codes "config.yaml") config backend
      (add_default_topic backend.L 7 config (new_broker backend.L backend.state)) refl refl refl
