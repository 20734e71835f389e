-- ===== src/Tests/Clients.antt =====
-- The clients of client/consumer/main.go and client/producer/main.go, on a connection that hands
-- over given messages.
use go_pub_sub.Prelude.{◌≡◌, refl, ap, false, none, List, [], ◌∷◌, ◌++◌, arith, some}
use go_pub_sub.Prelude.Int.{ℤ, pos, negsuc}
use go_pub_sub.Text.{codes, bytes_eq}
use go_pub_sub.GoMap.{get}
use go_pub_sub.Go.{ok, external}
use go_pub_sub.Storage.{Message}
use go_pub_sub.Storage.Memory.Backend.{memory, memory-Contract}
use go_pub_sub.Storage.Memory.Log.{log}
use go_pub_sub.Storage.Memory.{committed_or_none, get_committed_offset}
use go_pub_sub.Storage.Memory.Keys.{ckey}
use go_pub_sub.Topics.{topic_exists}
use go_pub_sub.Broker.{Broker, ack, publish}
use go_pub_sub.Broker.Subscribe.{start_offset}
use go_pub_sub.Clients.{
  Client, Received, got, end_of_stream, recv_failed, consume, consumer_main, success,
  consumer_request, producer_main,
}
use go_pub_sub.Clients.Session.{IsSession, reply}
use go_pub_sub.Clients.Consumer.{consumer_resumes}
use go_pub_sub.Clients.Stuck.{recv_times, stuck_after_error}
use go_pub_sub.Clients.Produced.{produced_consumed}
use go_pub_sub.Tests.{orders, billing, message}
use go_pub_sub.Tests.Partitions.{with_orders-IsValid}
use go_pub_sub.Tests.Storage.{billing-Lacks}
use go_pub_sub.Tests.Broker.{broker, counter_lem}

-- the messages to come, and the broker
abbrev Wire : Type 0
Wire = List Message × Broker memory

abbrev next : Wire → Received × Wire
next ([], b) = (end_of_stream, ([], b))
next (m ∷ ms, b) = (got m, (ms, b))

abbrev wire : Client
wire = record {
  State = Wire;
  publish = λ s req.
      (reply (publish memory 7 s.1 (some req)).0, (s.0, (publish memory 7 s.1 (some req)).1));
  subscribe = λ s req. (none, s);
  recv = next;
  ack = λ s req. ((ack memory s.1 (some req)).0, (s.0, (ack memory s.1 (some req)).1));
}

abbrev wire-IsSession : IsSession wire memory
wire-IsSession = record {
  coming = λ s. s.0;
  broker = λ s. s.1;
  recv_lem = λ s m ms e. ((ms, s.1), ap (λ xs. next (xs, s.1)) e, refl, refl);
  end_lem = λ s e. (([], s.1), ap (λ xs. next (xs, s.1)) e, refl);
  ack_lem = λ s req. (refl, refl);
  publish_lem = λ s req. (7, refl, refl);
}

abbrev two : List Message
two = message ∷ record message { offset = pos 1 } ∷ []

at_zero : start_offset memory broker (consumer_request orders billing) (pos 0) ≡ pos 0
unfolding start_offset get_committed_offset get
at_zero = refl

consumer_resumes_example :
    ((consumer_main wire 3 orders billing (two, broker)).0 ≡ success)
    × (start_offset memory
          (consumer_main wire 3 orders billing (two, broker)).1.1
          (consumer_request orders billing)
          (pos 0)
        ≡ pos 2)
consumer_resumes_example =
    consumer_resumes memory memory-Contract wire wire-IsSession orders billing (pos 0) 3 0 two
      (two, broker) (two, broker) refl refl refl billing-Lacks (λ i h. tt) refl refl
      (refl, refl, refl, (refl, refl, refl, tt)) at_zero (omega arith) (omega arith)

-- a connection that is gone
abbrev broken : Client
broken = record wire { recv = λ s. (recv_failed (external 3), s) }

stuck_after_error_example :
    consume broken 5 billing (two, broker) ≡ (false, recv_times broken 5 (two, broker))
stuck_after_error_example =
    stuck_after_error broken (λ s. Unit {0}) (λ s _. (external 3, s, refl, tt)) 5 billing
      (two, broker) tt

none_yet : (p : ℤ) → (committed_or_none (get (ckey billing orders p) [])).0 ≡ negsuc 0
unfolding get
none_yet p = refl

produced_consumed_example :
    let (exit, s') = producer_main wire orders (codes "hi") (negsuc 0) ([], broker) in
    (exit ≡ success)
    × (p : ℤ) × (m : Message) × (m.value ≡ codes "hi")
    × (memory.read s'.1.store orders p
          (start_offset memory s'.1 (consumer_request orders billing) p)
          (pos 0)
        ≡ ok (log broker.store orders p ++ m ∷ []))
produced_consumed_example =
    produced_consumed memory memory-Contract wire wire-IsSession orders billing (codes "hi") 0
      ([], broker) refl (unfold topic_exists get bytes_eq in refl) with_orders-IsValid counter_lem
      (omega arith) refl (λ p. tt) billing-Lacks none_yet
