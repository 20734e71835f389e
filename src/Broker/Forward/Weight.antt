-- ===== src/Broker/Forward/Weight.antt =====
-- A bound on what the goroutines of a group's subscription, in internal/broker/broker.go, can still
-- do.
use go_pub_sub.Prelude.{
  ℕ, ◌≤◌, ◌<◌, ◌+◌, ◌*◌, ◌≡◌, ap, subst, List, [], ◌∷◌, arith, length, length-append, length-drop,
}
use mathlib.Core.Logic.Or
use mathlib.Core.List.{Mem, not-mem-nil, eq-or-mem_of_mem-cons}
use native.Mathlib.Bridge.{le_prop}
use go_pub_sub.Prelude.Int.{ℤ}
use go_pub_sub.Broker.Forward.{
  Hand, ranging, holding, drained, cut_off, Lane, Stage, attaching, serving, leaving, ending,
  returned, abandoned, Relay, set_lane, Move, takes, drains, forwards, cuts, serves, gives_up,
  sends_one, fails, cancels, closes, finishes, take_lane, set_hand,
}
use go_pub_sub.Broker.Forward.Lanes.{set_lane-cases}

abbrev pub hand_weight : Hand → ℕ
hand_weight ranging = 1
hand_weight (holding m) = 3
hand_weight _ = 0

-- A message in a channel is taken, passed on and sent.
abbrev pub lane_weight : Lane → ℕ
lane_weight l = hand_weight l.hand + 3 * length l.channel.buffer

abbrev pub lanes_weight : (ℤ → Lane) → List ℤ → ℕ
lanes_weight lane [] = 0
lanes_weight lane (p ∷ ps) = lane_weight (lane p) + lanes_weight lane ps

abbrev pub stage_weight : Stage → ℕ
stage_weight attaching = 4
stage_weight serving = 3
stage_weight leaving = 2
stage_weight ending = 1
stage_weight returned = 0
stage_weight abandoned = 0

pub weight : Relay → ℕ
weight s = lanes_weight s.lane s.partitions + length s.central + stage_weight s.stage

module _ (lane : ℤ → Lane) (p : ℤ) (l : Lane) (k : ℕ) where
  set_lane-weight :
      (q : ℤ)
      → lane_weight l + k ≤ lane_weight (lane p)
      → lane_weight (set_lane p l lane q) ≤ lane_weight (lane q)
  set_lane-weight q h =
      set_lane-cases (λ x. lane_weight x ≤ lane_weight (lane q)) p q l lane
        (λ e. subst (λ r. lane_weight l ≤ lane_weight (lane r)) e (omega arith)) (λ _. omega arith)

  lanes_weight-le :
      (ps : List ℤ)
      → lane_weight l + k ≤ lane_weight (lane p)
      → lanes_weight (set_lane p l lane) ps ≤ lanes_weight lane ps
  lanes_weight-le [] h = omega arith
  lanes_weight-le (q ∷ ps) h = omega (arith, lanes_weight-le ps h, set_lane-weight q h)

  -- What a lane sheds, all of them shed.
  lanes_weight-less :
      (ps : List ℤ)
      → Mem p ps
      → lane_weight l + k ≤ lane_weight (lane p)
      → lanes_weight (set_lane p l lane) ps + k ≤ lanes_weight lane ps
  lanes_weight-less [] m h = absurd (not-mem-nil m)
  lanes_weight-less (q ∷ ps) m h =
      Or.elim le_prop (eq-or-mem_of_mem-cons m) (λ e. omega (arith, lanes_weight-le ps h, here e))
        (λ m'. omega (arith, lanes_weight-less ps m' h, set_lane-weight q h))
    where
      here : p ≡ q → lane_weight (set_lane p l lane q) + k ≤ lane_weight (lane q)
      here e =
          set_lane-cases (λ x. lane_weight x + k ≤ lane_weight (lane q)) p q l lane
            (λ _. subst (λ r. lane_weight l + k ≤ lane_weight (lane r)) e h) (λ d. absurd (d e))

-- Every move of the handler and its forwarders uses some of the weight up.
pub Move-weight : (s t : Relay) → Move s t → weight t < weight s
unfolding weight take_lane
Move-weight s _ (takes p m rest among idle full) =
    let h = ap hand_weight idle in
    let n = ap length full in
    let d = length-drop 1 (s.lane p).channel.buffer in
    omega (
      arith,
      lanes_weight-less s.lane p (take_lane m (s.lane p)) 1 s.partitions among (omega arith),
    )
Move-weight s _ (drains p among idle _ _) =
    let h = ap hand_weight idle in
    omega (
      arith,
      lanes_weight-less s.lane p (set_hand drained (s.lane p)) 1 s.partitions among (omega arith),
    )
Move-weight s _ (forwards p m among has _) =
    let h = ap hand_weight has in
    omega (
      arith,
      length-append s.central (m ∷ []),
      lanes_weight-less s.lane p (set_hand ranging (s.lane p)) 2 s.partitions among (omega arith),
    )
Move-weight s _ (cuts p m among has _) =
    let h = ap hand_weight has in
    omega (
      arith,
      lanes_weight-less s.lane p (set_hand (cut_off m) (s.lane p)) 1 s.partitions among
          (omega arith),
    )
Move-weight s _ (serves e) = let w = ap stage_weight e in omega arith
Move-weight s _ (gives_up e) = let w = ap stage_weight e in omega arith
Move-weight s _ (sends_one m rest e full) = let n = ap length full in omega arith
Move-weight s _ (fails m rest e full) =
    let n = ap length full in let w = ap stage_weight e in omega arith
Move-weight s _ (cancels e _) = let w = ap stage_weight e in omega arith
Move-weight s _ (closes e) = let w = ap stage_weight e in omega arith
Move-weight s _ (finishes e _) = let w = ap stage_weight e in omega arith
