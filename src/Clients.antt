-- ===== src/Clients.antt =====
-- The programs of client/consumer/main.go and client/producer/main.go. What they call, the client
-- that gRPC generates with its connection, is a parameter; what they log is left out.
pub mod Session
pub mod Consumer
pub mod Stuck
pub mod Produced
use go_pub_sub.Prelude.{
  ℕ, zero, suc, Bool, true, false, Option, none, some, [], ◌⊎◌, inl, inr, if◌then◌else◌,
}
use go_pub_sub.Prelude.Int.{ℤ, negsuc, int32_of}
use go_pub_sub.Text.{Bytes}
use go_pub_sub.Go.{Error}
use go_pub_sub.Storage.{Message}
use go_pub_sub.Broker.{PublishRequest, PublishResponse, AckRequest}
use go_pub_sub.Broker.Subscribe.{SubscribeRequest}

-- what `stream.Recv()` returns: a message, io.EOF, or another error
pub data Received : Type 0 where
  got : Message → Received
  end_of_stream : Received
  recv_failed : Error → Received

-- The connection, with the stream that `Subscribe` opens.
pub record Client : Type 1 where
  pub State : Type 0
  pub publish : State → PublishRequest → (Error ⊎ PublishResponse) × State
  pub subscribe : State → SubscribeRequest → Option Error × State
  pub recv : State → Received × State
  pub ack : State → AckRequest → Option Error × State

-- How a program ends: `logger.Fatalf` and os.Exit(1) are failures.
pub data Exit : Type 0 where
  failure : Error → Exit
  success : Exit
  running : Exit

abbrev pub consumer_request : Bytes → Bytes → SubscribeRequest
consumer_request topic group = record {
  topic = topic;
  group = group;
  partition = negsuc 0;
  offset = negsuc 0;
  auto_ack = false;
}

abbrev pub ack_request : Bytes → Message → AckRequest
ack_request group msg = record {
  topic = msg.topic;
  partition = msg.partition;
  offset = msg.offset;
  group = group;
}

-- The flag `partition` is an int; the key and the headers are not set.
abbrev pub producer_request : Bytes → Bytes → ℤ → PublishRequest
producer_request topic msg partition = record {
  topic = topic;
  key = [];
  value = msg;
  headers = [];
  partition = int32_of partition;
}

module _ (K : Client) where
  -- What a round of the consumer's loop does with what it received, and whether it returns then. An
  -- error of the acknowledgement is logged; so is one of `Recv`, after which the loop sleeps.
  unfoldable pub on_received : Bytes → Received × K.State → Bool × K.State
  on_received group (got msg, s) = (false, (K.ack s (ack_request group msg)).1)
  on_received group (end_of_stream, s) = (true, s)
  on_received group (recv_failed e, s) = (false, s)

  -- for { ... }, with `n` rounds left
  unfoldable pub consume : ℕ → Bytes → K.State → Bool × K.State
  consume zero group s = (false, s)
  consume (suc n) group s =
      let (over, s') = on_received group (K.recv s) in
      elim over [ true ↦ (true, s') | false ↦ consume n group s' ]

  abbrev pub after_loop : Bool × K.State → Exit × K.State
  after_loop (over, s) = (if over then success else running, s)

  -- the program, on what `Subscribe` returned, for `n` rounds of its loop
  unfoldable pub after_subscribe : ℕ → Bytes → Option Error × K.State → Exit × K.State
  after_subscribe n group (some e, s) = (failure e, s)
  after_subscribe n group (none, s) = after_loop (consume n group s)

  unfoldable pub consumer_main : ℕ → Bytes → Bytes → K.State → Exit × K.State
  consumer_main n topic group s =
      after_subscribe n group (K.subscribe s (consumer_request topic group))

  abbrev pub after_publish : (Error ⊎ PublishResponse) × K.State → Exit × K.State
  after_publish (inl e, s) = (failure e, s)
  after_publish (inr _, s) = (success, s)

  unfoldable pub producer_main : Bytes → Bytes → ℤ → K.State → Exit × K.State
  producer_main topic msg partition s =
      after_publish (K.publish s (producer_request topic msg partition))
