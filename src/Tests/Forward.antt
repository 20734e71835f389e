-- ===== src/Tests/Forward.antt =====
-- Runs of the forwarders of a group's subscription, of internal/broker/broker.go, on two
-- partitions.
use go_pub_sub.Prelude.{◌≤◌, ◌+◌, length, ◌≡◌, ◌≢◌, ◌⊎◌, refl, true, [], ◌∷◌, ◌++◌, arith}
use mathlib.Core.HLevel.{⊥_prop}
use mathlib.Core.Logic.Or
use mathlib.Core.List.{Mem, not-mem-nil, mem-cons_self, mem-cons_of_mem, eq-or-mem_of_mem-cons}
use go_pub_sub.Runs.{Inevitable}
use go_pub_sub.Prelude.Int.{ℤ, pos}
use go_pub_sub.Storage.{Message}
use go_pub_sub.Broker.Forward.{
  Relay, holding, serving, returned, Reach, stay, moved, happened, Move, takes, forwards, sends_one,
  fails, serves, attaches, offers, offer_lane, take_lane,
}
use go_pub_sub.Broker.Forward.Lanes.{of_partition, in_hand}
use go_pub_sub.Broker.Forward.Order.{relay_order, backlog_bound}
use go_pub_sub.Broker.Forward.Ends.{returns_when_over}
use go_pub_sub.Broker.Forward.Deliver.{IsDelivered, delivers_all}
use go_pub_sub.Broker.Forward.Left.{returns_once_left}

-- the message with number `n` of a partition
abbrev numbered : ℤ → ℤ → Message
numbered p n = record {
  topic = 97 ∷ [];
  partition = p;
  offset = n;
  key = [];
  value = [];
  headers = [];
  ts = 0;
}

not_zero : ¬ Mem (pos 1) (pos 0 ∷ [])
not_zero m = Or.elim ⊥_prop (eq-or-mem_of_mem-cons m) (λ e. cc) not-mem-nil

-- Partitions 0 and 1 are attached. A message of the first comes, two of the second, and one more of
-- the first; both forwarders take one, the second passes its own on, and the loop sends it.
abbrev running : (s : Relay) × Reach s
unfolding offer_lane take_lane
running =
    let both =
      happened (happened stay (attaches (pos 0) 0 refl not-mem-nil))
        (attaches (pos 1) 1 refl not_zero) in
    let zero_in = mem-cons_self in
    let one_in = mem-cons_of_mem (pos 0) mem-cons_self in
    let r1 = happened both (offers (pos 0) (numbered (pos 0) (pos 0)) zero_in tt refl) in
    let r2 = happened r1 (offers (pos 1) (numbered (pos 1) (pos 0)) one_in tt refl) in
    let r3 = moved r2 (serves refl) in
    let r4 = happened r3 (offers (pos 1) (numbered (pos 1) (pos 1)) one_in tt refl) in
    let r5 = moved r4 (takes (pos 0) (numbered (pos 0) (pos 0)) [] zero_in refl refl) in
    let r6 =
      moved r5 (
        takes (pos 1) (numbered (pos 1) (pos 0)) (numbered (pos 1) (pos 1) ∷ []) one_in refl
          refl) in
    let r7 = moved r6 (forwards (pos 1) (numbered (pos 1) (pos 0)) one_in refl (omega arith)) in
    let r8 = moved r7 (sends_one (numbered (pos 1) (pos 0)) [] refl refl) in (_, r8)

relay_order_example :
    (running.0.lane (pos 1)).accepted
    ≡ of_partition (pos 1) running.0.sends
      ++ (of_partition (pos 1) running.0.central
          ++ (in_hand (running.0.lane (pos 1)).hand ++ (running.0.lane (pos 1)).channel.buffer))
relay_order_example = relay_order running.0 (pos 1) running.1

backlog_bound_example :
    length (running.0.lane (pos 0)).accepted ≤ length (of_partition (pos 0) running.0.sends) + 321
backlog_bound_example = backlog_bound running.0 (pos 0) running.1

-- what the first theorem says there
second_sent :
    (running.0.sends ≡ numbered (pos 1) (pos 0) ∷ [])
    × ((running.0.lane (pos 1)).channel.buffer ≡ numbered (pos 1) (pos 1) ∷ [])
    × ((running.0.lane (pos 0)).hand ≡ holding (numbered (pos 0) (pos 0)))
unfolding offer_lane take_lane
second_sent = (refl, refl, refl)

delivers_all_example : Inevitable Move (λ t. (t.stage ≢ serving) ⊎ IsDelivered t) running.0
unfolding running
delivers_all_example = delivers_all running.0 running.1 refl refl

-- The client goes away while one forwarder has a message.
abbrev cut : Relay
cut = record running.0 { over = true }

returns_when_over_example : Inevitable Move (λ t. t.stage ≡ returned) cut
unfolding running
returns_when_over_example = returns_when_over cut tt refl

-- The other forwarder passes its message on, and `Send` fails on it.
abbrev failed : (s : Relay) × Reach s
unfolding offer_lane take_lane running
failed =
    let m = numbered (pos 0) (pos 0) in
    let r9 = moved running.1 (forwards (pos 0) m mem-cons_self refl (omega arith)) in
    let r10 = moved r9 (fails m [] refl refl) in (_, r10)

returns_once_left_example : Inevitable Move (λ t. t.stage ≡ returned) failed.0
unfolding running failed
returns_once_left_example = returns_once_left failed.0 failed.1 tt
