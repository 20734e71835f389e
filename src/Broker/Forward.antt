-- ===== src/Broker/Forward.antt =====
-- The goroutines of a group's subscription in internal/broker/broker.go, lines 187 to 301: a
-- forwarder for each partition moves the messages of its channel to `central`, from which the
-- handler's loop sends them; at the end the handler closes the channels and waits for the
-- forwarders. Each step is one that a goroutine, a publisher or the client can take next.
pub mod Lanes
pub mod Order
pub mod Weight
pub mod Ends
pub mod Left
pub mod Stops
pub mod Deliver
use go_pub_sub.Prelude.{
  ℕ, ◌<◌, ◌≡◌, Bool, true, false, List, [], ◌∷◌, ◌++◌, length, ltb, if◌then◌else◌, ◌⊎◌,
}
use mathlib.Core.List.{Mem}
use go_pub_sub.Prelude.Int.{ℤ, eq_ℤ}
use go_pub_sub.Storage.{Message}
use go_pub_sub.Broker.{Channel, offer}
use go_pub_sub.Broker.Channels.{new_channel, shift}

-- Where a forwarder is: it waits for a message of its channel, it waits to pass one on, it has left
-- its loop over the closed channel, or it has returned over the context, with a message in hand.
pub data Hand : Type 0 where
  ranging : Hand
  holding : Message → Hand
  drained : Hand
  cut_off : Message → Hand

-- A partition's channel and forwarder. `accepted` is all that went into the channel, for the
-- statements only.
pub record Lane : Type 0 where
  pub channel : Channel
  pub hand : Hand
  pub accepted : List Message

-- Where the handler is: in the loop over the partitions, in its live loop, out of that loop,
-- waiting for the forwarders after it has closed the channels, returned, or returned from the first
-- loop.
pub data Stage : Type 0 where
  attaching serving leaving ending returned abandoned : Stage

-- `partitions` are those with a forwarder, `over` tells whether the stream's context is done, and
-- `sends` are the messages of `central` that the loop has handed to `stream.Send`.
pub record Relay : Type 0 where
  pub partitions : List ℤ
  pub lane : ℤ → Lane
  pub central : List Message
  pub stage : Stage
  pub over : Bool
  pub sends : List Message

abbrev pub new_lane : ℕ → Lane
new_lane id = record { channel = new_channel id; hand = ranging; accepted = [] }

-- a partition that has no channel
abbrev pub no_lane : Lane
no_lane = record { channel = new_channel 0; hand = drained; accepted = [] }

abbrev pub set_lane : ℤ → Lane → (ℤ → Lane) → ℤ → Lane
set_lane p l lane q = if eq_ℤ p q then l else lane q

-- central := make(chan *api.Message, 256)
abbrev pub init_relay : Relay
init_relay = record {
  partitions = [];
  lane = λ _. no_lane;
  central = [];
  stage = attaching;
  over = false;
  sends = [];
}

-- The channels are open, and among the subscribers.
abbrev pub IsOpen : Stage → Type 0
IsOpen ending = ⊥
IsOpen returned = ⊥
IsOpen _ = Unit {0}

-- The forwarder has called `forwardWg.Done()`.
abbrev pub is_stopped : Hand → Bool
is_stopped drained = true
is_stopped (cut_off _) = true
is_stopped _ = false

-- a publisher's send to the lane's channel
unfoldable pub offer_lane : Message → Lane → Lane
offer_lane m l = record {
  channel = offer m l.channel;
  hand = l.hand;
  accepted = if ltb (length l.channel.buffer) 64 then l.accepted ++ m ∷ [] else l.accepted;
}

-- for m := range c
unfoldable pub take_lane : Message → Lane → Lane
take_lane m l = record { channel = shift l.channel; hand = holding m; accepted = l.accepted }

abbrev pub set_hand : Hand → Lane → Lane
set_hand h l = record l { hand = h }

-- What the forwarders and the handler do. A `select` may take any case that is ready.
pub data Move (s : Relay) : Relay → Type 0 where
  -- m := <-c
  takes :
      (p : ℤ) (m : Message) (rest : List Message)
      → Mem p s.partitions
      → (s.lane p).hand ≡ ranging
      → (s.lane p).channel.buffer ≡ m ∷ rest
      → Move s (record s { lane = set_lane p (take_lane m (s.lane p)) s.lane })
  -- the range ends: the channel is closed and empty
  drains :
      (p : ℤ)
      → Mem p s.partitions
      → (s.lane p).hand ≡ ranging
      → (s.lane p).channel.buffer ≡ []
      → s.stage ≡ ending
      → Move s (record s { lane = set_lane p (set_hand drained (s.lane p)) s.lane })
  -- central <- m, on a buffer of 256
  forwards :
      (p : ℤ) (m : Message)
      → Mem p s.partitions
      → (s.lane p).hand ≡ holding m
      → length s.central < 256
      → Move s (record s {
        lane = set_lane p (set_hand ranging (s.lane p)) s.lane;
        central = s.central ++ m ∷ [];
      })
  -- the forwarder's <-stream.Context().Done()
  cuts :
      (p : ℤ) (m : Message)
      → Mem p s.partitions
      → (s.lane p).hand ≡ holding m
      → s.over ≡ true
      → Move s (record s { lane = set_lane p (set_hand (cut_off m) (s.lane p)) s.lane })
  -- the loop over the partitions ends, or the handler returns from it
  serves : s.stage ≡ attaching → Move s (record s { stage = serving })
  gives_up : s.stage ≡ attaching → Move s (record s { stage = abandoned })
  -- m, ok := <-central, and stream.Send(m) returns nil, or an error, with which gRPC aborts the
  -- stream and ends its context
  sends_one :
      (m : Message) (rest : List Message)
      → s.stage ≡ serving
      → s.central ≡ m ∷ rest
      → Move s (record s { central = rest; sends = s.sends ++ m ∷ [] })
  fails :
      (m : Message) (rest : List Message)
      → s.stage ≡ serving
      → s.central ≡ m ∷ rest
      → Move s
          (record s { central = rest; sends = s.sends ++ m ∷ []; stage = leaving; over = true })
  -- the loop's <-stream.Context().Done()
  cancels : s.stage ≡ serving → s.over ≡ true → Move s (record s { stage = leaving })
  -- the deferred clean-up, up to forwardWg.Wait(), and from there
  closes : s.stage ≡ leaving → Move s (record s { stage = ending })
  finishes :
      s.stage ≡ ending
      → ((p : ℤ) → Mem p s.partitions → is_stopped (s.lane p).hand ≡ true)
      → Move s (record s { stage = returned })

-- What comes from elsewhere, or makes more work: the loop over the partitions adds one, a publisher
-- sends a message of a partition, as `Publish` makes it, and the context gets done.
pub data Event (s : Relay) : Relay → Type 0 where
  attaches :
      (p : ℤ) (id : ℕ)
      → s.stage ≡ attaching
      → ¬ Mem p s.partitions
      → Event s
          (record s { partitions = s.partitions ++ p ∷ []; lane = set_lane p (new_lane id) s.lane })
  offers :
      (p : ℤ) (m : Message)
      → Mem p s.partitions
      → IsOpen s.stage
      → m.partition ≡ p
      → Event s (record s { lane = set_lane p (offer_lane m (s.lane p)) s.lane })
  disconnects : s.over ≡ false → Event s (record s { over = true })

-- `Steps s t`: any steps that lead from `s` to `t`.
pub data Steps (s : Relay) : Relay → Type 0 where
  stay : Steps s s
  moved : {t u : Relay} → Steps s t → Move t u → Steps s u
  happened : {t u : Relay} → Steps s t → Event t u → Steps s u

abbrev pub Reach : Relay → Type 0
Reach = Steps init_relay
