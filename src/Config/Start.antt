-- ===== src/Config/Start.antt =====
-- The broker that cmd/server/main.go registers, and the backend that `InitBroker` of
-- internal/config/config.go has chosen for it.
use go_pub_sub.Prelude.{
  ℕ, ◌≡◌, ◌≢◌, refl, sym, ap, ◌∙◌, subst, false, Option, none, some, ◌⊎◌, inl, inr, Bool-cases,
}
use go_pub_sub.Prelude.Int.{ℤ}
use go_pub_sub.Text.{Bytes, codes, is_empty, bytes_eq, bytes_eq_iff}
use go_pub_sub.Go.{Error}
use go_pub_sub.Storage.Redis.{new_redis_store}
use go_pub_sub.Storage.Redis.Server.{Codec}
use go_pub_sub.Storage.Redis.Backend.{redis}
use go_pub_sub.Storage.Postgres.{postgres, new_postgres_store, ensure_schema}
use go_pub_sub.Broker.{Broker}
use go_pub_sub.Config.{
  Files, load_config, listened, start_server, started, Config, Backend, Connect, RedisClient,
  Connection, choose_store, in_memory, redis_backend, postgres_backend, init_broker,
}
use go_pub_sub.Config.Init.{IsReady, init_broker-IsReady}

abbrev pub redis_client : Connect → Config → RedisClient
redis_client connect cfg =
    connect.new_client cfg.store.redis.addr cfg.store.redis.pass cfg.store.redis.db

abbrev pub connection : Connect → Config → Connection
connection connect cfg = connect.open_database cfg.store.postgres.dsn

-- The backend is the one that the configuration names: Redis, whose ping was answered, with the
-- prefix "gopub:"; or Postgres, opened, answering and with its schema; or else the one in memory.
pub record IsChosen (connect : Connect) (cfg : Config) (x : Backend) : Type 1 where
  pub as_redis :
      cfg.store.type_ ≡ codes "redis"
      → let c = redis_client connect cfg in
        (c.ping ≡ none)
        × (x ≡ record {
          L = redis c.R connect.codec (record { key_prefix = codes "gopub:" });
          state = c.state;
        })
  pub as_postgres :
      cfg.store.type_ ≡ codes "postgres"
      → let c = connection connect cfg in
        (c.opened ≡ none)
        × (c.pinged ≡ none)
        × (s : c.D.State) × (ensure_schema c.D connect.codec c.state ≡ (none, s))
        × (x ≡ record { L = postgres c.D connect.codec; state = s })
  pub as_memory :
      cfg.store.type_ ≢ codes "redis" → cfg.store.type_ ≢ codes "postgres" → x ≡ in_memory

inr_injective : {x y : Backend} → Path (Error ⊎ Backend) (inr x) (inr y) → x ≡ y
inr_injective e = cc

not_both : {e : Error} {x : Backend} → Path (Error ⊎ Backend) (inl e) (inr x) → ⊥
not_both e = cc

redis_lem :
    (J : Codec) (c : RedisClient) (x : Backend) (o : Option Error)
    → redis_backend J c (new_redis_store o (codes "gopub:")) ≡ inr x
    → (o ≡ none)
      × (x ≡ record { L = redis c.R J (record { key_prefix = codes "gopub:" }); state = c.state })
redis_lem J c x none q = (refl, sym (inr_injective q))
redis_lem J c x (some e) q = absurd (not_both q)

postgres_lem :
    (J : Codec) (c : Connection) (x : Backend) (o p : Option Error)
    → postgres_backend J c (new_postgres_store c.D J o p c.state) ≡ inr x
    → (o ≡ none)
      × (p ≡ none)
      × (s : c.D.State) × (ensure_schema c.D J c.state ≡ (none, s))
      × (x ≡ record { L = postgres c.D J; state = s })
unfolding new_postgres_store
postgres_lem J c x (some e) p q = absurd (not_both q)
postgres_lem J c x none (some e) q = absurd (not_both q)
postgres_lem J c x none none q =
    let (s, made, same) = at_ (ensure_schema c.D J c.state) q in (refl, refl, s, made, same)
  where
    at_ :
        (r : Option Error × c.D.State)
        → postgres_backend J c (elim (r.0) [ some a ↦ inl a | none ↦ inr r.1 ]) ≡ inr x
        → (s : c.D.State) × (r ≡ (none, s)) × (x ≡ record { L = postgres c.D J; state = s })
    at_ (none, s) h = (s, refl, sym (inr_injective h))
    at_ (some e, s) h = absurd (not_both h)

not_equal : (s t : Bytes) → s ≢ t → bytes_eq s t ≡ false
not_equal s t h = elim (Bool-cases (bytes_eq s t)) [
  | inl e ↦ absurd (h ((bytes_eq_iff s t).0 e))
  | inr e ↦ e
]

neither :
    (connect : Connect) (cfg : Config)
    → cfg.store.type_ ≢ codes "redis"
    → cfg.store.type_ ≢ codes "postgres"
    → choose_store connect cfg ≡ inr in_memory
unfolding choose_store
neither connect cfg r p =
    let r' = not_equal cfg.store.type_ (codes "redis") r in
    let p' = not_equal cfg.store.type_ (codes "postgres") p in
    elim (Bool-cases (bytes_eq cfg.store.type_ (codes "memory"))) [
      | inl m ↦ simp m refl
      | inr m ↦ elim (Bool-cases (bytes_eq cfg.store.type_ (codes "file"))) [
        | inl f ↦ simp (m, f) refl
        | inr f ↦ simp (m, f, r', p') refl
      ]
    ]

choose_store-IsChosen :
    (connect : Connect) (cfg : Config) (x : Backend)
    → choose_store connect cfg ≡ inr x
    → IsChosen connect cfg x
unfolding choose_store bytes_eq
choose_store-IsChosen connect cfg x e = record {
  as_redis = λ t.
      redis_lem connect.codec (redis_client connect cfg) x (redis_client connect cfg).ping
        (sym (ap typed t) ∙ e);
  as_postgres = λ t.
      let c = connection connect cfg in
      postgres_lem connect.codec c x c.opened c.pinged (sym (ap typed t) ∙ e);
  as_memory = λ r p. sym (inr_injective (sym (neither connect cfg r p) ∙ e));
}
  where
    typed : Bytes → Error ⊎ Backend
    typed t = choose_store connect (record cfg { store = record cfg.store { type_ = t } })

-- With any files, backends and network, where the configuration in the file names a default topic:
-- the broker that the server of cmd/server/main.go registers is on the backend of the configured
-- type, with the configured address or connection string, and that has been reached; for any type
-- but "redis" and "postgres" it is on a new store in memory. The server listens on the configured
-- port. The broker is ready: it has the default topic in both managers, with one partition; the
-- managers agree, the store is as its constructor left it, and there is no subscriber.
pub start_server-IsReady :
    (files : Files) (connect : Connect) (listen : ℤ → Option Error) (now : ℕ) (path : Bytes)
    (cfg : Config) (x : Backend) (b : Broker x.L)
    → load_config files path ≡ inr cfg
    → is_empty cfg.default_topic ≡ false
    → start_server files connect listen now path ≡ inr (x, b)
    → IsReady cfg x b × IsChosen connect cfg x × (listen cfg.port ≡ none)
unfolding start_server listened init_broker
start_server-IsReady files connect listen now path cfg x b loaded named e =
    let (made, listens) =
      listened_lem (init_broker connect now cfg) (subst (λ c. from c ≡ inr (x, b)) loaded e) in
    (
      init_broker-IsReady connect now cfg x b named made,
      choose_store-IsChosen connect cfg x (chosen made),
      listens,
    )
  where
    Made : Type 1
    Made = Error ⊎ ((y : Backend) × Broker y.L)

    from : Error ⊎ Config → Made
    from c = elim c [ inl e ↦ inl e | inr cfg ↦ listened listen cfg (init_broker connect now cfg) ]

    apart : {e : Error} → Path Made (inl e) (inr (x, b)) → ⊥
    apart q = cc

    listened_lem :
        (r : Made)
        → listened listen cfg r ≡ inr (x, b)
        → (r ≡ inr (x, b)) × (listen cfg.port ≡ none)
    listened_lem (inl _) q = absurd (apart q)
    listened_lem (inr d) q = at_ (listen cfg.port) q
      where
        at_ :
            (o : Option Error)
            → Path Made (elim o [ some e ↦ inl e | none ↦ inr d ]) (inr (x, b))
            → Path Made (inr d) (inr (x, b)) × (o ≡ none)
        at_ none q = (q, refl)
        at_ (some e) q = absurd (apart q)

    chosen : init_broker connect now cfg ≡ inr (x, b) → choose_store connect cfg ≡ inr x
    chosen q = at_ (choose_store connect cfg) q
      where
        backend : Made → Error ⊎ Backend
        backend r = elim r [ inl e ↦ inl e | inr y ↦ inr y.0 ]

        at_ : (r : Error ⊎ Backend) → started now cfg r ≡ inr (x, b) → r ≡ inr x
        at_ (inl e) q = absurd (apart q)
        at_ (inr y) q = ap backend q
