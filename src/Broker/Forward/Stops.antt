-- ===== src/Broker/Forward/Stops.antt =====
-- When a forwarder of internal/broker/broker.go may stop: its context is done, or its channel
-- closed.
use go_pub_sub.Prelude.{◌≡◌, refl, sym, subst, true, ◌⊎◌, inl, inr}
use mathlib.Core.Bool.{true≢false}
use mathlib.Core.List.{Mem, Mem-prop, not-mem-nil, mem-append, eq-or-mem_of_mem-cons}
use mathlib.Core.HLevel.{⊥_prop}
use mathlib.Core.Logic.Or
use go_pub_sub.Prelude.Int.{ℤ}
use go_pub_sub.Broker.Forward.{
  ranging, drained, cut_off, Lane, Stage, attaching, serving, abandoned, Relay, set_lane,
  is_stopped, Move, takes, drains, forwards, cuts, serves, gives_up, sends_one, fails, cancels,
  closes, finishes, take_lane, set_hand, Reach, moved, stay, happened, Event, attaches, offers,
  disconnects, IsOpen, offer_lane, new_lane,
}
use go_pub_sub.Broker.Forward.Lanes.{set_lane-cases}

-- A forwarder that has stopped has a reason to.
abbrev pub Excused : Relay → Type 0
Excused s = (s.over ≡ true) ⊎ ¬ IsOpen s.stage

abbrev pub StopsExcused : Relay → Type 0
StopsExcused s = (p : ℤ) → Mem p s.partitions → is_stopped (s.lane p).hand ≡ true → Excused s

set-StopsExcused :
    (s : Relay) (p : ℤ) (l : Lane)
    → (Mem p s.partitions → is_stopped l.hand ≡ true → Excused s)
    → StopsExcused s
    → (q : ℤ) → Mem q s.partitions
    → is_stopped (set_lane p l s.lane q).hand ≡ true
    → Excused s
set-StopsExcused s p l here i q among =
    set_lane-cases (λ x. is_stopped x.hand ≡ true → Excused s) p q l s.lane
      (λ e. here (subst (λ r. Mem r s.partitions) (sym e) among)) (λ _. i q among)

-- The stages with open channels follow one another.
opened :
    (s : Relay) (before after : Stage)
    → s.stage ≡ before
    → IsOpen before
    → StopsExcused s
    → (p : ℤ) → Mem p s.partitions
    → is_stopped (s.lane p).hand ≡ true
    → (s.over ≡ true) ⊎ ¬ IsOpen after
opened s before after e open_ i p among f = at_ (i p among f)
  where
    at_ : Excused s → (s.over ≡ true) ⊎ ¬ IsOpen after
    at_ (inl over) = inl over
    at_ (inr shut) = absurd (shut (subst IsOpen (sym e) open_))

Move-StopsExcused : (s t : Relay) → Move s t → StopsExcused s → StopsExcused t
unfolding take_lane
Move-StopsExcused s _ (takes p m _ _ _ _) i =
    set-StopsExcused s p (take_lane m (s.lane p)) (λ _ f. absurd (true≢false (sym f))) i
Move-StopsExcused s _ (drains p _ _ _ e) i =
    set-StopsExcused s p (set_hand drained (s.lane p)) (λ _ _. inr (λ o. subst IsOpen e o)) i
Move-StopsExcused s _ (forwards p _ _ _ _) i =
    set-StopsExcused s p (set_hand ranging (s.lane p)) (λ _ f. absurd (true≢false (sym f))) i
Move-StopsExcused s _ (cuts p m _ _ over) i =
    set-StopsExcused s p (set_hand (cut_off m) (s.lane p)) (λ _ _. inl over) i
Move-StopsExcused s _ (serves e) i = opened s attaching serving e tt i
Move-StopsExcused s _ (gives_up e) i = opened s attaching abandoned e tt i
Move-StopsExcused s _ (sends_one _ _ _ _) i = i
Move-StopsExcused s _ (fails _ _ _ _) i = λ _ _ _. inl refl
Move-StopsExcused s _ (cancels _ over) i = λ _ _ _. inl over
Move-StopsExcused s _ (closes _) i = λ _ _ _. inr (λ o. o)
Move-StopsExcused s _ (finishes _ _) i = λ _ _ _. inr (λ o. o)

Event-StopsExcused : (s t : Relay) → Event s t → StopsExcused s → StopsExcused t
unfolding offer_lane
Event-StopsExcused s _ (attaches p id _ _) i = λ q among.
    set_lane-cases (λ x. is_stopped x.hand ≡ true → Excused s) p q (new_lane id) s.lane
      (λ _ f. absurd (true≢false (sym f)))
      (λ d. i q (
        Or.elim Mem-prop (mem-append.0 among) (λ m. m)
          (λ m. absurd (Or.elim ⊥_prop (eq-or-mem_of_mem-cons m) (λ e. d (sym e)) not-mem-nil))))
Event-StopsExcused s _ (offers p m _ _ _) i = set-StopsExcused s p (offer_lane m (s.lane p)) (i p) i
Event-StopsExcused s _ (disconnects _) i = λ _ _ _. inl refl

pub Reach-StopsExcused : (s : Relay) → Reach s → StopsExcused s
Reach-StopsExcused _ stay = λ p among. absurd (not-mem-nil among)
Reach-StopsExcused t (moved {t = s} r h) = Move-StopsExcused s t h (Reach-StopsExcused s r)
Reach-StopsExcused t (happened {t = s} r h) = Event-StopsExcused s t h (Reach-StopsExcused s r)
