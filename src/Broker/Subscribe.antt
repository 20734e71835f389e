-- ===== src/Broker/Subscribe.antt =====
-- `Subscribe` of internal/broker/broker.go, up to its live loop, and its clean-up. A subscription
-- runs over the client's stream, which is gRPC's: its `Send`, and whether its context is done.
-- Other calls may come between the pieces; those of a piece that hold no lock are one step here.
pub mod History
pub mod Gap
pub mod Group
pub mod Cleanup
pub mod Leak
pub mod Skipped
use go_pub_sub.Prelude.{
  ℕ, suc, Bool, true, false, Option, none, some, List, [], ◌∷◌, ◌++◌, if◌then◌else◌,
}
use go_pub_sub.Prelude.Int.{ℤ, pos, negsuc, ◌+ℤ◌, ltb_ℤ, eq_ℤ, int32_of, int64_of}
use go_pub_sub.Text.{Bytes, is_empty}
use go_pub_sub.GoMap.{RangeOrder}
use go_pub_sub.Go.{Error, Result, ok, err, panic, invalid_subscribe, unknown_topic, no_partitions}
use go_pub_sub.Storage.{Message, LogStorage}
use go_pub_sub.Partitions.{tp_key, get_partition_count}
use go_pub_sub.Topics.{topic_exists, validate_partition}
use go_pub_sub.Groups.{join, leave}
use go_pub_sub.Broker.{Broker}
use go_pub_sub.Broker.Channels.{register, unregister}

-- The stream and its context. What `stream.Send` gets has the fields of a `Message`.
pub record Stream : Type 1 where
  pub State : Type 0
  pub send : State → Message → Option Error × State
  pub done : State → Bool × State

pub record SubscribeRequest : Type 0 where
  pub topic : Bytes
  pub group : Bytes
  pub partition : ℤ
  pub offset : ℤ
  pub auto_ack : Bool

-- How a piece of the handler ends: it goes on with a value, or the handler returns (nil is none).
pub data Flow (A : Type 0) : Type 0 where
  continues : A → Flow A
  returns : Option Error → Flow A
  panics : Flow A

pub data Selected : Type 0 where
  cancelled : Selected
  received : Option Message → Selected

-- a channel that the handler is to unregister later, with its key
pub record Registration : Type 0 where
  pub key : Bytes
  pub channel : ℕ

-- part := int(req.Partition); if part < 0 { part = 0 }
abbrev pub chosen_partition : ℤ → ℤ
chosen_partition (pos p) = pos p
chosen_partition (negsuc p) = pos 0

-- the offset after the committed one, or the first
abbrev pub after_committed : ℤ → ℤ
after_committed comm = if ltb_ℤ comm (pos 0) then pos 0 else int64_of (comm +ℤ pos 1)

module _ (W : Stream) where
  -- for _, m := range msgs { if err := stream.Send(...); err != nil { return err } }
  unfoldable pub send_all : List Message → W.State → Flow (Unit {0}) × W.State
  send_all [] w = (continues tt, w)
  send_all (m ∷ msgs) w =
      let (e, w') = W.send w m in
      elim e [ some x ↦ (returns (some x), w') | none ↦ send_all msgs w' ]

  -- the same loop of a group's subscription, which looks at the context first
  unfoldable pub send_backlog : List Message → W.State → Flow (Unit {0}) × W.State
  send_backlog [] w = (continues tt, w)
  send_backlog (m ∷ msgs) w =
      let (over, w1) = W.done w in
      elim over [
        | true ↦ (returns none, w1)
        | false ↦
            let (e, w2) = W.send w1 m in
            elim e [ some x ↦ (returns (some x), w2) | none ↦ send_backlog msgs w2 ]
      ]

  abbrev pub on_read :
      (List Message → W.State → Flow (Unit {0}) × W.State)
      → Result (List Message)
      → W.State
      → Flow (Unit {0}) × W.State
  on_read send (ok msgs) w = send msgs w
  on_read send (err e) w = (returns (some e), w)
  on_read send panic w = (panics, w)

  -- One round of the live loop, on the case that the runtime selects: the context is done, or the
  -- channel is closed (none) or has a message.
  unfoldable pub live_round : Selected → W.State → Flow (Unit {0}) × W.State
  live_round cancelled w = (returns none, w)
  live_round (received none) w = (returns none, w)
  live_round (received (some m)) w = send_all (m ∷ []) w

module _ (L : LogStorage) where
  -- the checks at the head of the handler
  unfoldable pub check_subscribe : Broker L → Option SubscribeRequest → Flow SubscribeRequest
  check_subscribe b none = returns (some invalid_subscribe)
  check_subscribe b (some req) =
      if is_empty req.topic
      then returns (some invalid_subscribe)
      else if topic_exists b.tm req.topic
      then continues req
      else returns (some (unknown_topic req.topic))

  -- Without a group: what comes before the registration of the channel.
  unfoldable pub send_history :
      (W : Stream) → Broker L → SubscribeRequest → W.State → Flow (Unit {0}) × W.State
  send_history W b req w =
      let part = chosen_partition req.partition in
      elim (validate_partition b.tm req.topic part) [
        | some e ↦ (returns (some e), w)
        | none ↦
            if ltb_ℤ req.offset (pos 0)
            then (continues tt, w)
            else on_read W (send_all W) (L.read b.store req.topic part req.offset (pos 0)) w
      ]

  -- key := tpKey(req.Topic, int32(part)), with the registration of the new channel `id`
  unfoldable pub go_live : ℕ → Broker L → SubscribeRequest → Registration × Broker L
  go_live id b req =
      let key = tp_key req.topic (int32_of (chosen_partition req.partition)) in
      (record { key = key; channel = id }, register L id key b)

  -- the offset from which a group's member reads a partition
  unfoldable pub start_offset : Broker L → SubscribeRequest → ℤ → ℤ
  start_offset b req p =
      if ltb_ℤ req.offset (pos 0)
      then after_committed (L.get_committed_offset b.store req.group req.topic p).0
      else req.offset

  -- how the loop over the partitions ends, with the next channel, the broker and the stream
  abbrev pub Attached : Type 0 → Type 0
  Attached S = Flow (List Registration) × ℕ × Broker L × S

  -- what a group's member still does for a partition once its backlog is sent
  unfoldable pub attach :
      {S : Type 0} → Bytes → ℕ → List Registration → Broker L → Flow (Unit {0}) × S → Attached S
  attach key n regs b (continues _, w) =
      (continues (regs ++ record { key = key; channel = n } ∷ []), suc n, register L n key b, w)
  attach key n regs b (returns e, w) = (returns e, n, b, w)
  attach key n regs b (panics, w) = (panics, n, b, w)

  -- One round of the loop over the assigned partitions: `make` returns the channel `n` next.
  unfoldable pub attach_one :
      (W : Stream)
      → SubscribeRequest
      → ℤ
      → ℕ
      → List Registration
      → Broker L
      → W.State
      → Attached W.State
  attach_one W req p n regs b w = elim (validate_partition b.tm req.topic p) [
    | some _ ↦ (continues regs, n, b, w)
    | none ↦
        attach (tp_key req.topic (int32_of p)) n regs b
          (on_read W (send_backlog W) (L.read b.store req.topic p (start_offset b req p) (pos 0)) w)
  ]

  abbrev pub and_then :
      {S : Type 0} → Attached S → (List Registration → ℕ → Broker L → S → Attached S) → Attached S
  and_then (continues regs, n, b, w) next = next regs n b w
  and_then (returns e, n, b, w) next = (returns e, n, b, w)
  and_then (panics, n, b, w) next = (panics, n, b, w)

  -- for _, p := range assignments { ... }
  unfoldable pub attach_all :
      (W : Stream)
      → SubscribeRequest
      → List ℤ
      → ℕ
      → List Registration
      → Broker L
      → W.State
      → Attached W.State
  attach_all W req [] n regs b w = (continues regs, n, b, w)
  attach_all W req (p ∷ ps) n regs b w =
      and_then (attach_one W req p n regs b w)
        (λ regs' n' b' w'. attach_all W req ps n' regs' b' w')

  -- defer b.gm.Leave(...)
  unfoldable pub leave_group : RangeOrder → Bytes → SubscribeRequest → ℤ → Broker L → Broker L
  leave_group order member req partitions b = record b {
    gm = leave order b.gm req.group member req.topic partitions;
  }

  -- A handler that has not got to its loop returns through the deferred `Leave` alone.
  unfoldable pub end_early :
      {S : Type 0} → RangeOrder → Bytes → SubscribeRequest → ℤ → Attached S → Attached S
  end_early order member req partitions (continues regs, n, b, w) = (continues regs, n, b, w)
  end_early order member req partitions (f, n, b, w) =
      (f, n, leave_group order member req partitions b, w)

  unfoldable pub after_join :
      (W : Stream)
      → RangeOrder
      → Bytes
      → SubscribeRequest
      → ℤ
      → ℕ
      → Broker L
      → W.State
      → Result (List ℤ)
      → Attached W.State
  after_join W order member req partitions n b w (ok assignments) =
      end_early order member req partitions (attach_all W req assignments n [] b w)
  after_join W order member req partitions n b w (err e) = (returns (some e), n, b, w)
  after_join W order member req partitions n b w panic = (panics, n, b, w)

  -- With a group: the handler up to its loop, for the id `member` that `NewMemberID` gives.
  unfoldable pub subscribe_group :
      (W : Stream)
      → RangeOrder
      → Bytes
      → SubscribeRequest
      → ℕ
      → Broker L
      → W.State
      → Attached W.State
  subscribe_group W order member req n b w =
      let partitions = get_partition_count b.pm req.topic in
      if eq_ℤ partitions (pos 0)
      then (returns (some (no_partitions req.topic)), n, b, w)
      else let (r, gm) = join order b.gm req.group member req.topic partitions in
        after_join W order member req partitions n (record b { gm = gm }) w r

  -- for _, r := range regs { unregister, close(r.ch) }
  unfoldable pub unregister_all : List Registration → Broker L → Broker L
  unregister_all [] b = b
  unregister_all (r ∷ regs) b = unregister_all regs (unregister L r.channel r.key b)

  -- The end of the loop, whatever ends it: the clean-up, and `Leave`.
  unfoldable pub end_group :
      RangeOrder → Bytes → SubscribeRequest → ℤ → List Registration → Broker L → Broker L
  end_group order member req partitions regs b =
      leave_group order member req partitions (unregister_all regs b)
