-- ===== src/Config/Init.antt =====
-- The broker that `InitBroker` of internal/config/config.go returns.
use go_pub_sub.Prelude.{
  ℕ, ◌≡◌, refl, subst, true, false, Option, none, some, [], ◌∷◌, ◌⊎◌, inl, inr, arith,
}
use go_pub_sub.Prelude.Int.{pos}
use go_pub_sub.Text.{Bytes, is_empty, bytes_eq_refl}
use go_pub_sub.GoMap.{get}
use go_pub_sub.Go.{Error}
use go_pub_sub.Storage.{LogStorage}
use go_pub_sub.Partitions.{PartitionManager, new_partition_manager, get_partition_count}
use go_pub_sub.Topics
use go_pub_sub.Topics.{TopicManager, new_topic_manager, topic_exists, new_info}
use go_pub_sub.Topics.Create.{IsCreatable, create_topic_iff, Effect, create_topic-Effect}
use go_pub_sub.Topics.Consistent.{IsConsistent, create_topic-IsConsistent}
use go_pub_sub.Broker.{Broker, new_broker}
use go_pub_sub.Broker.Invariant.{IsSound}
use go_pub_sub.Config.{
  Config, Backend, Connect, choose_store, with_managers, add_default_topic, started, init_broker,
}

creatable :
    (name : Bytes)
    → is_empty name ≡ false
    → IsCreatable new_topic_manager new_partition_manager name (pos 1)
unfolding get
creatable name named = record {
  acceptable = record {
    named = λ q. blank name q named;
    positive = omega arith;
    enough = omega arith;
    few = omega arith;
  };
  no_metadata = refl;
  no_partitions = refl;
}
  where
    blank : (s : Bytes) → s ≡ [] → is_empty s ≡ false → ⊥
    blank [] q e = cc
    blank (c ∷ s) q e = cc

-- The broker has the default topic, with one partition, its managers agree, and it has no
-- subscriber.
pub record IsReady (cfg : Config) (x : Backend) (b : Broker x.L) : Type 0 where
  pub sound : IsSound x.L b
  pub store : b.store ≡ x.state
  pub topic : topic_exists b.tm cfg.default_topic ≡ true
  pub partitions : get_partition_count b.pm cfg.default_topic ≡ pos 1
  pub subs : b.subs ≡ []

new_broker-IsSound : (L : LogStorage) (st : L.State) → IsSound L (new_broker L st)
unfolding get
new_broker-IsSound L st = record {
  agreed = λ t ti e. absurd (cc e);
  bounded = λ k channels e. absurd (cc e);
}

module _ (now : ℕ) (cfg : Config) (named : is_empty cfg.default_topic ≡ false) where
  with_managers-IsReady :
      (x : Backend) (o : Option Error × TopicManager × PartitionManager)
      → o.0 ≡ none
      → IsConsistent o.1 o.2
      → Effect now new_topic_manager new_partition_manager cfg.default_topic
          (pos 1)
          cfg.retention_ms
          o
      → IsReady cfg x (with_managers x.L (new_broker x.L x.state) o)
  unfolding topic_exists
  with_managers-IsReady x (some e, tm, pm) done agreed effect = absurd (cc done)
  with_managers-IsReady x (none, tm, pm) done agreed effect =
      let (in_topics, in_partitions) = effect cfg.default_topic in
      record {
        sound = record { agreed = agreed; bounded = (new_broker-IsSound x.L x.state).bounded };
        store = refl;
        topic = ground (arith, bytes_eq_refl cfg.default_topic, in_topics);
        partitions = ground (arith, bytes_eq_refl cfg.default_topic, in_partitions);
        subs = refl;
      }

  add_default_topic-IsReady :
      (x : Backend) → IsReady cfg x (add_default_topic x.L now cfg (new_broker x.L x.state))
  unfolding add_default_topic topic_exists get
  add_default_topic-IsReady x =
      with_managers-IsReady x
        (Topics.create_topic now new_topic_manager new_partition_manager cfg.default_topic (pos 1)
          cfg.retention_ms)
        ((create_topic_iff now new_topic_manager new_partition_manager cfg.default_topic (pos 1)
            cfg.retention_ms).1
          (creatable cfg.default_topic named))
        (create_topic-IsConsistent now new_topic_manager new_partition_manager cfg.default_topic
          (pos 1) cfg.retention_ms (new_broker-IsSound x.L x.state).agreed)
        (create_topic-Effect now new_topic_manager new_partition_manager cfg.default_topic (pos 1)
          cfg.retention_ms)

  abbrev AllReady : Error ⊎ ((x : Backend) × Broker x.L) → Type 0
  AllReady (inl e) = Unit {0}
  AllReady (inr (x, b)) = IsReady cfg x b

  started-AllReady : (r : Error ⊎ Backend) → AllReady (started now cfg r)
  started-AllReady (inl e) = tt
  started-AllReady (inr x) = add_default_topic-IsReady x

-- With any backend: a broker that `InitBroker` returns for a configuration whose default topic has
-- a name is ready. It has that topic in both managers, with one partition; the managers agree, the
-- store is as its constructor left it, and there is no subscriber.
pub init_broker-IsReady :
    (connect : Connect) (now : ℕ) (cfg : Config) (x : Backend) (b : Broker x.L)
    → is_empty cfg.default_topic ≡ false
    → init_broker connect now cfg ≡ inr (x, b)
    → IsReady cfg x b
unfolding init_broker
init_broker-IsReady connect now cfg x b named e =
    subst (AllReady now cfg named) e (started-AllReady now cfg named (choose_store connect cfg))
