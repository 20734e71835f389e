-- ===== src/Tests/Subscribe.antt =====
-- The theorems on `Subscribe` of internal/broker/broker.go, on a broker with one topic.
use mathlib.Core.List.{foldl}
use go_pub_sub.Prelude.{ℕ, ◌≤◌, ◌≡◌, refl, false, some, none, List, [], ◌∷◌, ◌++◌, drop, arith}
use go_pub_sub.Prelude.Int.{pos, negsuc}
use go_pub_sub.Text.{codes, bytes_eq}
use go_pub_sub.GoMap.{get, put, in_order}
use go_pub_sub.Go.{ok}
use go_pub_sub.Storage.{Message}
use go_pub_sub.Storage.Memory.Backend.{memory, memory-Contract}
use go_pub_sub.Storage.Memory.Log.{log}
use go_pub_sub.Partitions
use go_pub_sub.Partitions.{
  tp_key, ensure_topic, create_topic, choose, chosen, append_to, get_lock, store_result,
}
use go_pub_sub.Storage.Memory
use go_pub_sub.Storage.Memory.{stamp}
use go_pub_sub.Storage.Memory.Keys.{tkey, ckey}
use go_pub_sub.Text.Decimal.{decimal}
use go_pub_sub.Topics.{topic_exists, validate_partition}
use go_pub_sub.Groups
use go_pub_sub.Groups.{rebalance, assign, assign_loop, add_member, give, ensure, reset}
use go_pub_sub.Text.Sort.{sort_strings}
use go_pub_sub.Broker.{PublishRequest, PublishResponse, publish, deliver, new_broker}
use go_pub_sub.Broker.Channels.{add_channel, register, or_nil}
use go_pub_sub.Broker.Channels.Phases.{attached, set_phase, unused, contains}
use go_pub_sub.Broker.Channels.Registry.{Reach, start, later, registers, offered_attached}
use go_pub_sub.Broker.Subscribe.{
  Stream, SubscribeRequest, Registration, continues, send_history, go_live, start_offset,
  subscribe_group, end_group, after_join, attach_all, attach_one, attach, end_early, send_backlog,
}
use go_pub_sub.Broker.Subscribe.History.{Accepts}
use go_pub_sub.Partitions.Choice.{counter}
use go_pub_sub.Broker.Subscribe.Skipped.{PassedOver, gapped, message_skipped}
use go_pub_sub.Broker.Subscribe.Gap.{publish_in_subscribe}
use go_pub_sub.Broker.Subscribe.Leak.{IsAttached, subscribe_group-IsAttached, end_group_restores}
use go_pub_sub.Broker.Subscribe.Cleanup.{channels_at}
use go_pub_sub.Tests.{orders, billing, two_messages}
use go_pub_sub.Tests.Partitions.{with_orders-IsValid}
use go_pub_sub.Tests.Storage.{billing-Lacks}
use go_pub_sub.Tests.Broker.{broker, request, counter_lem}

-- a client that keeps what it gets
abbrev recorder : Stream
recorder = record {
  State = List Message;
  send = λ got m. (none, got ++ m ∷ []);
  done = λ got. (false, got);
}

abbrev keep : List Message → Message → List Message
keep got m = got ++ m ∷ []

keep-Accepts : Accepts recorder keep
keep-Accepts w m = refl

-- from the second message on
abbrev from_one : SubscribeRequest
from_one = record {
  topic = orders;
  group = [];
  partition = pos 0;
  offset = pos 1;
  auto_ack = false;
}

from_one_valid : validate_partition broker.tm orders (pos 0) ≡ none
unfolding validate_partition get bytes_eq
from_one_valid = refl

abbrev to_zero : PublishRequest
to_zero = record request { partition = pos 0 }

abbrev response : PublishResponse
response = record { topic = orders; partition = pos 0; offset = pos 2; timestamp = 7 }

published : (publish memory 7 broker (some to_zero)).0 ≡ ok response
unfolding publish topic_exists deliver Partitions.append ensure_topic create_topic choose chosen
    append_to get_lock store_result get put bytes_eq stamp Memory.append tkey decimal
published = refl

abbrev from_last : SubscribeRequest
from_last = record {
  topic = orders;
  group = billing;
  partition = pos 0;
  offset = negsuc 0;
  auto_ack = false;
}

subscribe_group-IsAttached_example :
    IsAttached memory 2 [] broker
      (subscribe_group memory recorder in_order (codes "ann") from_last 2 broker [])
subscribe_group-IsAttached_example =
    subscribe_group-IsAttached memory recorder in_order (codes "ann") from_last 2 broker []

publish_in_subscribe_example :
    let b1 = (publish memory 7 broker (some to_zero)).1 in
    ((m : Message) × (log b1.store orders (pos 0) ≡ log broker.store orders (pos 0) ++ m ∷ []))
    × (send_history memory recorder broker from_one []
        ≡ (continues tt, foldl keep [] (drop 1 (log broker.store orders (pos 0)))))
    × (get (tp_key orders (pos 0)) (go_live memory 2 b1 from_one).1.subs
        ≡ some
            (or_nil (get (tp_key orders (pos 0)) b1.subs) ++ record { id = 2; buffer = [] } ∷ []))
publish_in_subscribe_example =
    publish_in_subscribe memory memory-Contract recorder keep keep-Accepts 7 0 broker to_zero
      response from_one 1 2 [] refl (unfold topic_exists get bytes_eq in refl) with_orders-IsValid
      counter_lem (omega arith) refl (λ p. tt) published from_one_valid refl refl refl

-- the first member of `billing` gets all partitions of `orders`
abbrev registered : List Registration
registered =
    record { key = codes "orders:0"; channel = 2 }
    ∷ record { key = codes "orders:1"; channel = 3 }
    ∷ record { key = codes "orders:2"; channel = 4 }
    ∷ []

assigned :
    (subscribe_group memory recorder in_order (codes "ann") from_last 2 broker []).0
    ≡ continues registered
unfolding subscribe_group after_join attach_all attach_one attach end_early send_backlog
    start_offset register add_channel validate_partition get put bytes_eq tkey decimal create_topic
    Groups.join rebalance sort_strings assign assign_loop add_member give ensure reset Memory.read
    Memory.get_committed_offset ckey
assigned = refl

fresh : (i : ℕ) → 2 ≤ i → contains i (channels_at (codes "orders:0") broker.subs) ≡ false
unfolding get bytes_eq
fresh i h = ground arith

end_group_restores_example :
    channels_at
      (codes "orders:0")
      (end_group memory in_order
        (codes "ann")
        from_last
        (pos 3)
        registered
        (subscribe_group memory recorder in_order (codes "ann") from_last 2 broker []).2).subs
    ≡ channels_at (codes "orders:0") broker.subs
end_group_restores_example =
    end_group_restores memory recorder in_order in_order (codes "ann") from_last 2 broker [] (pos 3)
      registered (codes "orders:0") fresh assigned

reached :
    Reach memory two_messages
      (register memory 7 orders (new_broker memory two_messages))
      (set_phase 7 (attached orders) (λ _. unused))
reached = later start (registers 7 orders refl)

offered_attached_example : set_phase 7 (attached orders) (λ _. unused) 7 ≡ attached orders
unfolding register add_channel put get bytes_eq
offered_attached_example =
    offered_attached memory two_messages _ _ reached orders (record { id = 7; buffer = [] } ∷ []) 7
      refl refl

abbrev second_response : PublishResponse
second_response = record { topic = orders; partition = pos 0; offset = pos 3; timestamp = 7 }

second_published :
    (publish memory 7
      (gapped memory memory-Contract 7 7 2 broker to_zero to_zero response)
      (some to_zero)).0
    ≡ ok second_response
unfolding publish topic_exists deliver Partitions.append ensure_topic create_topic choose chosen
    append_to get_lock store_result get put bytes_eq stamp Memory.append tkey decimal register
    add_channel
second_published = refl

counter_then :
    counter (gapped memory memory-Contract 7 7 2 broker to_zero to_zero response).pm orders ≡ pos 0
unfolding publish topic_exists deliver Partitions.append ensure_topic create_topic choose chosen
    append_to get_lock store_result get put bytes_eq stamp Memory.append tkey decimal register
    add_channel
counter_then = refl

at_start : start_offset memory broker from_last (pos 0) ≡ pos 0
unfolding start_offset Memory.get_committed_offset get
at_start = refl

message_skipped_example :
    PassedOver memory memory-Contract 7 7 2 broker to_zero to_zero response 0 billing
      second_response from_last
message_skipped_example =
    message_skipped memory memory-Contract 7 7 2 broker to_zero to_zero response 0 0 0 0 billing
      second_response from_last refl (unfold topic_exists get bytes_eq in refl) with_orders-IsValid
      counter_lem (omega arith) refl (λ p. tt) published refl counter_then (omega arith) (λ p. tt)
      second_published refl refl billing-Lacks tt (unfold get bytes_eq tkey decimal in omega arith)
      refl refl refl at_start
