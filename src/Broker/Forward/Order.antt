-- ===== src/Broker/Forward/Order.antt =====
-- A group's subscription of internal/broker/broker.go keeps the order of each partition's messages
-- on their way from the channels through the forwarders and `central` to the client.
use go_pub_sub.Prelude.{
  ◌+◌, suc, ◌≤◌, ◌<◌, ap₂, ◌≡◌, refl, sym, ap, ◌∙◌, subst, List, [], ◌∷◌, ◌++◌, arith, length,
  length-append, append_assoc,
}
use mathlib.Core.List.{Mem, mem-append_left}
use go_pub_sub.Prelude.Int.{ℤ}
use go_pub_sub.Storage.{Message}
use go_pub_sub.Broker.Forward.{
  Hand, Stage, ranging, holding, drained, cut_off, Lane, Relay, set_lane, Move, takes, drains,
  forwards, cuts, serves, gives_up, sends_one, fails, cancels, closes, finishes, Event, attaches,
  offers, disconnects, Reach, stay, moved, happened, take_lane, offer_lane, set_hand, new_lane,
}
use go_pub_sub.Broker.Forward.Lanes.{
  of_partition, in_hand, waiting, AllOf, IsLane, of_partition-append, of_partition-other,
  offer-IsLane, take-IsLane, drain-IsLane, cut-IsLane, forward-IsLane, pass-IsLane, set_lane-cases,
}

-- the messages that have passed the forwarders
abbrev pub passed : Relay → List Message
passed s = s.sends ++ s.central

pub record IsOrdered (s : Relay) : Type 0 where
  pub lanes : (p : ℤ) → IsLane p (passed s) (s.lane p)
  pub foreign : (p : ℤ) → ¬ Mem p s.partitions → of_partition p (passed s) ≡ []
  pub room : length s.central ≤ 256

-- A step of one forwarder, or on one channel, that passes nothing on.
set-IsOrdered :
    (s : Relay) (p : ℤ) (l : Lane)
    → (IsLane p (passed s) (s.lane p) → IsLane p (passed s) l)
    → IsOrdered s
    → IsOrdered (record s { lane = set_lane p l s.lane })
set-IsOrdered s p l keeps i = record {
  lanes = λ q.
      set_lane-cases (IsLane q (passed s)) p q l s.lane
        (λ e. subst (λ r. IsLane r (passed s) l) e (keeps (i.lanes p))) (λ _. i.lanes q);
  foreign = i.foreign;
  room = i.room;
}

-- A message of `central` goes to `stream.Send`.
send-IsOrdered :
    (s : Relay) (st : Stage) (m : Message) (rest : List Message)
    → s.central ≡ m ∷ rest
    → IsOrdered s
    → IsOrdered (record s { central = rest; sends = s.sends ++ m ∷ []; stage = st })
send-IsOrdered s st m rest full i = record {
  lanes = λ p. subst (λ ms. IsLane p ms (s.lane p)) same (i.lanes p);
  foreign = λ p other. ap (of_partition p) (sym same) ∙ i.foreign p other;
  room = let e : length s.central ≡ suc (length rest) = ap length full in omega (arith, i.room);
}
  where
    same : passed s ≡ (s.sends ++ m ∷ []) ++ rest
    same = ap (λ ms. s.sends ++ ms) full ∙ sym (append_assoc s.sends (m ∷ []) rest)

forward-IsOrdered :
    (s : Relay) (p : ℤ) (m : Message)
    → Mem p s.partitions
    → (s.lane p).hand ≡ holding m
    → length s.central < 256
    → IsOrdered s
    → IsOrdered (record s {
      lane = set_lane p (set_hand ranging (s.lane p)) s.lane;
      central = s.central ++ m ∷ [];
    })
forward-IsOrdered s p m among has free i = record {
  lanes = λ q.
      subst (λ ms. IsLane q ms (set_lane p l s.lane q)) same
        (set_lane-cases (IsLane q (passed s ++ m ∷ [])) p q l s.lane
          (λ e.
            subst (λ r. IsLane r (passed s ++ m ∷ []) l) e
              (forward-IsLane p (passed s) m (s.lane p) has (i.lanes p)))
          (λ d. pass-IsLane q (passed s) m (s.lane q) (λ e. d (sym own ∙ e)) (i.lanes q)));
  foreign = λ q other.
      ap (of_partition q) (sym same)
      ∙ of_partition-append q (passed s) (m ∷ [])
      ∙ ap₂ ◌++◌ (i.foreign q other) (
          of_partition-other q m
            (λ e. other (subst (λ r. Mem r s.partitions) (sym own ∙ e) among)));
  room = omega (arith, length-append s.central (m ∷ []));
}
  where
    l : Lane
    l = set_hand ranging (s.lane p)

    same : passed s ++ m ∷ [] ≡ s.sends ++ (s.central ++ m ∷ [])
    same = append_assoc s.sends s.central (m ∷ [])

    own : m.partition ≡ p
    own = (subst (AllOf p) (ap (λ h. in_hand h ++ (s.lane p).channel.buffer) has) (i.lanes p).own).0

Move-IsOrdered : (s t : Relay) → Move s t → IsOrdered s → IsOrdered t
Move-IsOrdered s _ (takes p m rest _ idle full) i =
    set-IsOrdered s p (take_lane m (s.lane p)) (take-IsLane p _ m rest (s.lane p) idle full) i
Move-IsOrdered s _ (drains p _ idle _ _) i =
    set-IsOrdered s p (set_hand drained (s.lane p)) (drain-IsLane p _ (s.lane p) idle) i
Move-IsOrdered s _ (forwards p m among has free) i = forward-IsOrdered s p m among has free i
Move-IsOrdered s _ (cuts p m _ has _) i =
    set-IsOrdered s p (set_hand (cut_off m) (s.lane p)) (cut-IsLane p _ m (s.lane p) has) i
Move-IsOrdered s _ (serves _) i = record { lanes = i.lanes; foreign = i.foreign; room = i.room }
Move-IsOrdered s _ (gives_up _) i = record { lanes = i.lanes; foreign = i.foreign; room = i.room }
Move-IsOrdered s _ (sends_one m rest _ full) i = send-IsOrdered s _ m rest full i
Move-IsOrdered s _ (fails m rest _ full) i =
    let j = send-IsOrdered s s.stage m rest full i in
    record { lanes = j.lanes; foreign = j.foreign; room = j.room }
Move-IsOrdered s _ (cancels _ _) i = record { lanes = i.lanes; foreign = i.foreign; room = i.room }
Move-IsOrdered s _ (closes _) i = record { lanes = i.lanes; foreign = i.foreign; room = i.room }
Move-IsOrdered s _ (finishes _ _) i = record { lanes = i.lanes; foreign = i.foreign; room = i.room }

Event-IsOrdered : (s t : Relay) → Event s t → IsOrdered s → IsOrdered t
Event-IsOrdered s _ (attaches p id _ fresh) i = record {
  lanes = λ q.
      set_lane-cases (IsLane q (passed s)) p q (new_lane id) s.lane
        (λ e. record {
          order =
              ap (λ ms. ms ++ [])
                (sym (i.foreign q (λ m. fresh (subst (λ r. Mem r s.partitions) (sym e) m))));
          own = tt;
          room = omega arith;
        })
        (λ _. i.lanes q);
  foreign = λ q other. i.foreign q (λ m. other (mem-append_left (p ∷ []) m));
  room = i.room;
}
Event-IsOrdered s _ (offers p m _ _ own) i =
    set-IsOrdered s p (offer_lane m (s.lane p)) (offer-IsLane p _ m (s.lane p) own) i
Event-IsOrdered s _ (disconnects _) i = record {
  lanes = i.lanes;
  foreign = i.foreign;
  room = i.room;
}

Reach-IsOrdered : (s : Relay) → Reach s → IsOrdered s
Reach-IsOrdered _ stay = record {
  lanes = λ p. record { order = refl; own = tt; room = omega arith };
  foreign = λ p _. refl;
  room = omega arith;
}
Reach-IsOrdered t (moved {t = s} r h) = Move-IsOrdered s t h (Reach-IsOrdered s r)
Reach-IsOrdered t (happened {t = s} r h) = Event-IsOrdered s t h (Reach-IsOrdered s r)

-- At any time of a group's subscription, however its goroutines, the publishers and the client take
-- turns: what a partition's channel took in is, in this order, the partition's messages that went
-- to `Send`, those in the central channel, the one that the forwarder holds, and those in the
-- channel. So none is lost on the way, sent twice, or overtaken by a later one.
pub relay_order :
    (s : Relay) (p : ℤ)
    → Reach s
    → (s.lane p).accepted
      ≡ of_partition p s.sends
        ++ (of_partition p s.central ++ (in_hand (s.lane p).hand ++ (s.lane p).channel.buffer))
relay_order s p r =
    ((Reach-IsOrdered s r).lanes p).order
    ∙ ap (λ ms. ms ++ waiting (s.lane p)) (of_partition-append p s.sends s.central)
    ∙ append_assoc (of_partition p s.sends) (of_partition p s.central) (waiting (s.lane p))

length-of_partition : (p : ℤ) (ms : List Message) → length (of_partition p ms) ≤ length ms
length-of_partition p [] = omega arith
length-of_partition p (m ∷ ms) = ground (arith, length-of_partition p ms)

length-in_hand : (h : Hand) → length (in_hand h) ≤ 1
length-in_hand (holding m) = omega arith
length-in_hand (cut_off m) = omega arith
length-in_hand ranging = omega arith
length-in_hand drained = omega arith

-- At any time of a group's subscription, of the messages that a partition's channel took in at most
-- 321 have not gone to `Send`: 256 in the central channel, 64 in the partition's and one in hand.
pub backlog_bound :
    (s : Relay) (p : ℤ)
    → Reach s
    → length (s.lane p).accepted ≤ length (of_partition p s.sends) + 321
backlog_bound s p r =
    let i = Reach-IsOrdered s r in
    let hand = in_hand (s.lane p).hand in
    let buffer = (s.lane p).channel.buffer in
    let central = of_partition p s.central in
    let e = ap length (relay_order s p r) in
    omega (
      arith,
      length-append (of_partition p s.sends) (central ++ (hand ++ buffer)),
      length-append central (hand ++ buffer),
      length-append hand buffer,
      length-of_partition p s.central,
      length-in_hand (s.lane p).hand,
      i.room,
      (i.lanes p).room,
    )
