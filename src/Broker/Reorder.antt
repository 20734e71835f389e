-- ===== src/Broker/Reorder.antt =====
-- Two calls of `Publish` of internal/broker/broker.go at the same time: between the partition manager's
-- `Append`, which takes the partition's mutex, and the sends to the subscribers, no lock is held.
use go_pub_sub.Prelude.{
  ℕ, ◌+◌, ◌^◌, ◌<◌, ◌≤◌, ◌≡◌, refl, sym, ap, subst, ◌∙◌, ap₂, lt→ltb, some, List, [], ◌∷◌, ◌++◌,
  map, inl, inr, length, length-append, suc, arith, if◌then◌else◌,
}
use go_pub_sub.Prelude.Int.{ℤ, pos}
use go_pub_sub.Text.{Bytes}
use go_pub_sub.GoMap.{GoMap, get}
use go_pub_sub.Go.{Error, Result, ok, err}
use go_pub_sub.Storage.{Message, LogStorage, Contract}
use go_pub_sub.Storage.RoundTrip.{same_log_refl}
use go_pub_sub.Partitions
use go_pub_sub.Partitions.{PartitionManager, Appended, tp_key}
use go_pub_sub.Partitions.Append.{IsPlaced, append-Outcome}
use go_pub_sub.Partitions.Choice.{counter}
use go_pub_sub.Partitions.Locks.{IsValid}
use go_pub_sub.Broker.{Channel, proto_message, offer, fan_out}
use go_pub_sub.Broker.Publish.{get-fan_out, offered}

-- the channel after two messages have come
abbrev pub with_two : Message → Message → Channel → Channel
with_two m m' ch = record ch { buffer = (ch.buffer ++ m ∷ []) ++ m' ∷ [] }

-- Every channel has room for two more messages.
abbrev pub AllRoomy : List Channel → Type 0
AllRoomy [] = Unit {0}
AllRoomy (ch ∷ channels) = (length ch.buffer ≤ 62) × AllRoomy channels

offer_room :
    (m : Message) (ch : Channel)
    → length ch.buffer < 64
    → offer m ch ≡ record ch { buffer = ch.buffer ++ m ∷ [] }
offer_room m ch room =
    ap (λ c. if c then record ch { buffer = ch.buffer ++ m ∷ [] } else ch) (lt→ltb _ _ room)

two_offers :
    (m m' : Message) (channels : List Channel)
    → AllRoomy channels
    → map (offer m') (map (offer m) channels) ≡ map (with_two m m') channels
two_offers m m' [] room = refl
two_offers m m' (ch ∷ channels) (room, rest) =
    ap₂ ◌∷◌
      (ap (offer m') (offer_room m ch (omega arith))
        ∙ offer_room m' (record ch { buffer = ch.buffer ++ m ∷ [] })
            (omega (arith, length-append ch.buffer (m ∷ []))))
      (two_offers m m' channels rest)

-- Two messages, one after the other, for the subscribers of a partition that have room for both.
delivered :
    (m m' : Message) (t : Bytes) (p : ℤ) (subs : GoMap (List Channel)) (channels : List Channel)
    → get (tp_key t p) subs ≡ some channels
    → AllRoomy channels
    → get (tp_key t p) (fan_out m' (tp_key t p) (fan_out m (tp_key t p) subs))
      ≡ some (map (with_two m m') channels)
delivered m m' t p subs channels e room =
    once m' (fan_out m (tp_key t p) subs)
    ∙ ap (offered m') (once m subs ∙ ap (offered m) e)
    ∙ ap some (two_offers m m' channels room)
  where
    once :
        (k : Message) (subs : GoMap (List Channel))
        → get (tp_key t p) (fan_out k (tp_key t p) subs) ≡ offered k (get (tp_key t p) subs)
    once k subs = simp (same_log_refl t p) at (get-fan_out k t t p p subs)

same_partition : {x y u v : ℤ} → Path (Result (ℤ × ℤ)) (ok (x, u)) (ok (y, v)) → (x ≡ y) × (u ≡ v)
same_partition e = (cc, cc)

not_both : {r : Result (ℤ × ℤ)} {x : ℤ × ℤ} {e : Error} → r ≡ ok x → r ≡ err e → ⊥
not_both x y = cc

module _ (L : LogStorage) (C : Contract L) where
  open C use {Open, log}

  -- What an `Append` that succeeds has done.
  placed :
      (now c : ℕ) (pm : PartitionManager) (st : L.State) (t : Bytes) (hint : ℤ) (key : Bytes)
      (m : Message) (off p : ℤ)
      → IsValid pm
      → counter pm t ≡ pos c
      → c + 1 < 2 ^ 63
      → Open st
      → ((q : ℤ) → C.IsMessage (record m { partition = q }))
      → (Partitions.append L now pm st t hint key m).0 ≡ ok (off, p)
      → let a = Partitions.append L now pm st t hint key m in
        IsValid a.2 × IsPlaced L C now st a.3 t p m a.1 a.0
  placed now c pm st t hint key m off p v ec fits open_ fit done =
      let a = Partitions.append L now pm st t hint key m in
      let (n, (_, v', _, ended)) =
        append-Outcome L C now c pm st t hint key m v ec fits open_ fit in
      elim ended [
        | inl (_, refused, _, _) ↦ absurd (not_both done refused)
        | inr (q, _, _, i) ↦ (
          v',
          subst (λ x. IsPlaced L C now st a.3 t x m a.1 a.0)
              (same_partition (sym i.result ∙ done)).1 i,
        )
      ]

  module _ (now now' : ℕ) (pm : PartitionManager) (st : L.State) (t : Bytes) (hint hint' : ℤ)
      (key key' : Bytes) (m m' : Message) where
    abbrev pub first : Appended L
    first = Partitions.append L now pm st t hint key m

    -- the other publisher's append, that gets the partition's mutex after the first
    abbrev pub second : Appended L
    second = Partitions.append L now' first.2 first.3 t hint' key' m'

    -- Two publishes store their messages in the same partition, one append after the other, and then
    -- the second publish is the first to send to the subscribers. The second's offset is the next
    -- after the first's, but every subscriber of the partition gets the second message before the
    -- first. The tables are valid, the counters short of 63 bits, the store is open, keeps the
    -- contract and can store both messages, both appends succeed, and the channels have room for
    -- both messages.
    pub publishes_reordered :
        (c c' : ℕ) (off off' p : ℤ) (subs : GoMap (List Channel)) (channels : List Channel)
        → IsValid pm
        → Open st
        → counter pm t ≡ pos c
        → c + 1 < 2 ^ 63
        → counter first.2 t ≡ pos c'
        → c' + 1 < 2 ^ 63
        → ((q : ℤ) → C.IsMessage (record m { partition = q }))
        → ((q : ℤ) → C.IsMessage (record m' { partition = q }))
        → first.0 ≡ ok (off, p)
        → second.0 ≡ ok (off', p)
        → get (tp_key t p) subs ≡ some channels
        → AllRoomy channels
        → (off ≡ pos (length (log st t p)))
          × (off' ≡ pos (suc (length (log st t p))))
          × (get (tp_key t p) (
                fan_out
                  (proto_message first.1 p off)
                  (tp_key t p)
                  (fan_out (proto_message second.1 p off') (tp_key t p) subs))
              ≡ some (
                  map
                    (with_two (proto_message second.1 p off') (proto_message first.1 p off))
                    channels))
    publishes_reordered c c' off off' p subs channels v open_ ec fits ec' fits' fit fit' e e' found
          room =
        let (v1, i) = placed now c pm st t hint key m off p v ec fits open_ fit e in
        let (_, i') =
          placed now' c' first.2 first.3 t hint' key' m' off' p v1 ec' fits' i.open_ fit' e' in
        (
          (same_partition (sym e ∙ i.result)).0,
          (same_partition (sym e' ∙ i'.result)).0
              ∙ ap (λ x. pos (length x)) (simp (same_log_refl t p) at (i.logs t p))
              ∙ ap pos (length-append (log st t p) (i.kept ∷ []))
              ∙ ap pos (omega arith),
          delivered _ _ t p subs channels found room,
        )
