-- ===== src/Config.antt =====
-- internal/config/config.go: the choice of the backend, and `InitBroker`. The configuration that
-- YAML gives, the client of a Redis server and the connection to a database are parameters.
pub mod Init
pub mod Start
use go_pub_sub.Prelude.{ℕ, Option, none, some, ◌⊎◌, inl, inr, if◌then◌else◌}
use go_pub_sub.Prelude.Int.{ℤ, pos}
use go_pub_sub.Text.{Bytes, codes, bytes_eq}
use go_pub_sub.Go.{Error}
use go_pub_sub.Storage.{LogStorage}
use go_pub_sub.Storage.Memory.{new_in_memory_store}
use go_pub_sub.Storage.Memory.Backend.{memory}
use go_pub_sub.Storage.Redis.{RedisStore, new_redis_store}
use go_pub_sub.Storage.Redis.Server.{Redis, Codec}
use go_pub_sub.Storage.Redis.Backend.{redis}
use go_pub_sub.Storage.Postgres.{postgres, new_postgres_store}
use go_pub_sub.Storage.Postgres.Statements.{Database}
use go_pub_sub.Topics
use go_pub_sub.Topics.{topic_exists, TopicManager}
use go_pub_sub.Partitions.{PartitionManager}
use go_pub_sub.Broker.{Broker, new_broker}

pub record RedisConfig : Type 0 where
  pub addr : Bytes
  pub pass : Bytes
  pub db : ℤ

pub record PostgresConfig : Type 0 where
  pub dsn : Bytes

pub record StoreConfig : Type 0 where
  pub type_ : Bytes
  pub data_dir : Bytes
  pub redis : RedisConfig
  pub postgres : PostgresConfig

pub record Config : Type 0 where
  pub port : ℤ
  pub store : StoreConfig
  pub default_topic : Bytes
  pub retention_ms : ℤ

-- a backend, in the state that its constructor leaves
pub record Backend : Type 1 where
  pub L : LogStorage
  pub state : L.State

-- os.ReadFile, and the YAML of a configuration
pub record Files : Type 0 where
  pub read_file : Bytes → Error ⊎ Bytes
  pub unmarshal : Bytes → Error ⊎ Config

-- `LoadConfig` for the path that the flag gives. The left of the sum is `log.Fatalf`.
unfoldable pub load_config : Files → Bytes → Error ⊎ Config
load_config files path = elim (files.read_file path) [
  | inl e ↦ inl e
  | inr data_ ↦ files.unmarshal data_
]

-- redis.NewClient(opt), with what the ping returns
pub record RedisClient : Type 1 where
  pub R : Redis
  pub state : R.State
  pub ping : Option Error

-- sql.Open("postgres", connStr) and the ping, with their errors
pub record Connection : Type 1 where
  pub D : Database
  pub state : D.State
  pub opened : Option Error
  pub pinged : Option Error

-- what lies outside: the JSON codec, the client for an address, a password and a database, and the
-- connection for a connection string
pub record Connect : Type 1 where
  pub codec : Codec
  pub new_client : Bytes → Bytes → ℤ → RedisClient
  pub open_database : Bytes → Connection

-- st, err = storage.NewRedisStore(r.Addr, r.Pass, r.DB, "gopub:")
abbrev pub redis_backend : Codec → (c : RedisClient) → Error ⊎ RedisStore → Error ⊎ Backend
redis_backend J c (inl e) = inl e
redis_backend J c (inr r) = inr (record { L = redis c.R J r; state = c.state })

abbrev pub connect_redis : Codec → RedisClient → Error ⊎ Backend
connect_redis J c = redis_backend J c (new_redis_store c.ping (codes "gopub:"))

abbrev pub in_memory : Backend
in_memory = record { L = memory; state = new_in_memory_store }

-- st, err = storage.NewPostgresStore(p.DSN)
abbrev pub postgres_backend : Codec → (c : Connection) → Error ⊎ c.D.State → Error ⊎ Backend
postgres_backend J c (inl e) = inl e
postgres_backend J c (inr s) = inr (record { L = postgres c.D J; state = s })

abbrev pub connect_postgres : Codec → Connection → Error ⊎ Backend
connect_postgres J c = postgres_backend J c (new_postgres_store c.D J c.opened c.pinged c.state)

-- The switch on the store's type. The left of the sum is `log.Fatalf`, which ends the process.
unfoldable pub choose_store : Connect → Config → Error ⊎ Backend
choose_store connect cfg =
    if bytes_eq cfg.store.type_ (codes "memory")
    then inr in_memory
    else if bytes_eq cfg.store.type_ (codes "file")
    then inr in_memory
    else if bytes_eq cfg.store.type_ (codes "redis")
    then connect_redis connect.codec
        (connect.new_client cfg.store.redis.addr cfg.store.redis.pass cfg.store.redis.db)
    else if bytes_eq cfg.store.type_ (codes "postgres")
    then connect_postgres connect.codec (connect.open_database cfg.store.postgres.dsn)
    else inr in_memory

module _ (L : LogStorage) where
  -- the managers after `CreateTopic`, whose error is only logged
  abbrev pub with_managers : Broker L → Option Error × TopicManager × PartitionManager → Broker L
  with_managers b (e, tm, pm) = record b { tm = tm; pm = pm }

  unfoldable pub add_default_topic : ℕ → Config → Broker L → Broker L
  add_default_topic now cfg b =
      if topic_exists b.tm cfg.default_topic
      then b
      else with_managers b
          (Topics.create_topic now b.tm b.pm cfg.default_topic (pos 1) cfg.retention_ms)

abbrev pub started : ℕ → Config → Error ⊎ Backend → Error ⊎ ((x : Backend) × Broker x.L)
started now cfg (inl e) = inl e
started now cfg (inr x) = inr (x, add_default_topic x.L now cfg (new_broker x.L x.state))

unfoldable pub init_broker : Connect → ℕ → Config → Error ⊎ ((x : Backend) × Broker x.L)
init_broker connect now cfg = started now cfg (choose_store connect cfg)

-- net.Listen on the port of the configuration
unfoldable pub listened :
    (ℤ → Option Error)
    → Config
    → Error ⊎ ((x : Backend) × Broker x.L)
    → Error ⊎ ((x : Backend) × Broker x.L)
listened listen cfg (inl e) = inl e
listened listen cfg (inr b) = elim (listen cfg.port) [ some e ↦ inl e | none ↦ inr b ]

-- cmd/server/main.go, up to the server that gRPC makes: the broker that it registers, or the error
-- over which it ends.
unfoldable pub start_server :
    Files → Connect → (ℤ → Option Error) → ℕ → Bytes → Error ⊎ ((x : Backend) × Broker x.L)
start_server files connect listen now path = elim (load_config files path) [
  | inl e ↦ inl e
  | inr cfg ↦ listened listen cfg (init_broker connect now cfg)
]
