-- ===== src/Tests/Broker.antt =====
-- The theorems on internal/broker/broker.go, on a broker with one topic and one subscriber.
use go_pub_sub.Prelude.{ℕ, suc, length, List, map, ◌≡◌, ◌∙◌, ap, refl, some, [], ◌∷◌, arith}
use go_pub_sub.Prelude.Int.{pos, negsuc}
use go_pub_sub.Text.{codes, bytes_eq}
use go_pub_sub.GoMap.{get, put, get-put_self}
use go_pub_sub.Storage.Memory.Backend.{memory, memory-Contract}
use go_pub_sub.Partitions.{
  new_partition_manager, or_zero, Appended, tp_key, append, append_to, chosen, choose, ensure_topic,
  create_topic, get_lock, store_result,
}
use go_pub_sub.Partitions.Locks.{create_topic_lem}
use go_pub_sub.Partitions.Choice.{counter}
use go_pub_sub.Groups.{new_group_manager}
use go_pub_sub.Topics.{new_topic_manager, topic_exists}
use go_pub_sub.Broker.{
  Broker, PublishRequest, CreateTopicRequest, Channel, publish, new_broker, fan_out, proto_message,
}
use go_pub_sub.Broker.Publish.{Published, publish-Published}
use go_pub_sub.Broker.Reorder.{with_two, first, second, publishes_reordered}
use go_pub_sub.Broker.Invariant.{IsSound, publish-IsSound}
use go_pub_sub.Storage.{Message}
use go_pub_sub.Storage.Memory
use go_pub_sub.Storage.Memory.Keys.{tkey}
use go_pub_sub.Text.Decimal.{decimal}
use go_pub_sub.Tests.{orders, message, two_messages}
use go_pub_sub.Tests.Partitions.{with_orders, with_orders-IsValid}

abbrev pub broker : Broker memory
broker = record {
  store = two_messages;
  pm = with_orders;
  tm = record new_topic_manager {
    topics =
        (
          orders,
          record { name = orders; partitions = pos 3; retention_ms = pos 1000; created_at = 5 },
        )
        ∷ [];
  };
  gm = new_group_manager;
  subs = (codes "orders:1", record { id = 1; buffer = [] } ∷ []) ∷ [];
}

abbrev pub request : PublishRequest
request = record {
  topic = orders;
  key = [];
  value = codes "hi";
  headers = [];
  partition = negsuc 0;
}

pub counter_lem : counter with_orders orders ≡ pos 0
counter_lem =
    ap (λ rr. or_zero (get orders rr))
      (create_topic_lem new_partition_manager orders (pos 3) (omega arith) (unfold get in refl)).2
    ∙ ap or_zero (get-put_self orders (pos 0) [])

publish-Published_example :
    (n : ℕ) × Published memory memory-Contract 7 n broker request
      (publish memory 7 broker (some request))
publish-Published_example =
    publish-Published memory memory-Contract 7 0 broker request refl
      (unfold topic_exists get bytes_eq in refl) with_orders-IsValid counter_lem (omega arith) refl
      (λ p. tt)

empty-IsSound : IsSound memory (new_broker memory two_messages)
unfolding get
empty-IsSound = record { agreed = λ t ti e. absurd (cc e); bounded = λ k channels e. absurd (cc e) }

publish-IsSound_example :
    IsSound memory (publish memory 7 (new_broker memory two_messages) (some request)).1
publish-IsSound_example =
    publish-IsSound memory 7 (new_broker memory two_messages) (some request) empty-IsSound

abbrev new_topic : CreateTopicRequest
new_topic = record { topic = orders; partitions = pos 3; retention_ms = pos 0 }

-- the channels of the subscribers of partition 1 of `orders`
abbrev subscribers : List Channel
subscribers = record { id = 1; buffer = [] } ∷ []

abbrev later : Message
later = record message { value = codes "later" }

-- Both publishers name partition 1.
abbrev earlier_append : Appended memory
earlier_append =
    first memory memory-Contract 7 8 with_orders two_messages orders (pos 1) (pos 1) [] [] message
      later

abbrev later_append : Appended memory
later_append =
    second memory memory-Contract 7 8 with_orders two_messages orders (pos 1) (pos 1) [] [] message
      later

publishes_reordered_example :
    (pos 0 ≡ pos (length (memory-Contract.log two_messages orders (pos 1))))
    × (pos 1 ≡ pos (suc (length (memory-Contract.log two_messages orders (pos 1)))))
    × (get (tp_key orders (pos 1)) (
          fan_out (proto_message earlier_append.1 (pos 1) (pos 0)) (tp_key orders (pos 1)) (
            fan_out
              (proto_message later_append.1 (pos 1) (pos 1))
              (tp_key orders (pos 1))
              broker.subs))
        ≡ some (
            map
              (with_two
                (proto_message later_append.1 (pos 1) (pos 1))
                (proto_message earlier_append.1 (pos 1) (pos 0)))
              subscribers))
unfolding append append_to chosen choose ensure_topic create_topic get_lock store_result get put
    bytes_eq Memory.append Memory.stamp tkey decimal
publishes_reordered_example =
    publishes_reordered memory memory-Contract 7 8 with_orders two_messages orders (pos 1) (pos 1)
      [] [] message later 0 0 (pos 0) (pos 1) (pos 1) broker.subs subscribers with_orders-IsValid
      refl counter_lem (omega arith) refl (omega arith) (λ q. tt) (λ q. tt) refl refl refl
      (omega arith, tt)
