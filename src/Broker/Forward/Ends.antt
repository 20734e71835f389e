-- ===== src/Broker/Forward/Ends.antt =====
-- How a group's subscription of internal/broker/broker.go comes to its end, and that it delivers.
use go_pub_sub.Prelude.{◌≡◌, refl, ap, ◌∙◌, subst, Bool, true, false, List, [], ◌∷◌, ◌⊎◌, inl, inr}
use mathlib.Core.Logic.Or
use mathlib.Core.Bool.{Bool-set, true≢false}
use mathlib.Core.List.{Mem, not-mem-nil, eq-or-mem_of_mem-cons, mem-cons_self, mem-cons_of_mem}
use go_pub_sub.Runs.{Inevitable, IsAble, inevitable_lem}
use go_pub_sub.Prelude.Int.{ℤ}
use go_pub_sub.Storage.{Message}
use go_pub_sub.Broker.Forward.{
  Hand, ranging, holding, drained, cut_off, Stage, attaching, serving, leaving, ending, returned,
  abandoned, Relay, is_stopped, Move, takes, drains, forwards, cuts, serves, gives_up, sends_one,
  fails, cancels, closes, finishes,
}
use go_pub_sub.Broker.Forward.Weight.{weight, Move-weight}

-- The handler has got to its live loop.
abbrev pub HasServed : Stage → Type 0
HasServed attaching = ⊥
HasServed abandoned = ⊥
HasServed _ = Unit {0}

-- A context that is done stays so.
pub Move-over : (s t : Relay) → Move s t → s.over ≡ true → t.over ≡ true
Move-over s _ (takes _ _ _ _ _ _) h = h
Move-over s _ (drains _ _ _ _ _) h = h
Move-over s _ (forwards _ _ _ _ _) h = h
Move-over s _ (cuts _ _ _ _ _) h = h
Move-over s _ (serves _) h = h
Move-over s _ (gives_up _) h = h
Move-over s _ (sends_one _ _ _ _) h = h
Move-over s _ (fails _ _ _ _) h = refl
Move-over s _ (cancels _ _) h = h
Move-over s _ (closes _) h = h
Move-over s _ (finishes _ _) h = h

-- A test holds of all lanes, or else of one it does not, and that one finds something.
pub any_lane :
    {B : Type 0} (test : ℤ → Bool) (ps : List ℤ)
    → ((p : ℤ) → Mem p ps → test p ≡ false → B)
    → ((p : ℤ) → Mem p ps → test p ≡ true) ⊎ B
any_lane test [] found = inl (λ p m. absurd (not-mem-nil m))
any_lane {B} test (q ∷ ps) found =
    at_ (test q) refl (any_lane test ps (λ p m. found p (mem-cons_of_mem q m)))
  where
    at_ :
        (c : Bool)
        → test q ≡ c
        → ((p : ℤ) → Mem p ps → test p ≡ true) ⊎ B
        → ((p : ℤ) → Mem p (q ∷ ps) → test p ≡ true) ⊎ B
    at_ false e _ = inr (found q mem-cons_self e)
    at_ true e (inr b) = inr b
    at_ true e (inl all) = inl (λ p m.
        Or.elim (Bool-set (test p) true) (eq-or-mem_of_mem-cons m) (λ same. ap test same ∙ e)
          (all p))

module _ (s : Relay) (p : ℤ) (among : Mem p s.partitions) where
  -- While the handler waits and the context is done, a forwarder goes on until it has stopped.
  stops_next : s.stage ≡ ending → s.over ≡ true → is_stopped (s.lane p).hand ≡ false → IsAble Move s
  stops_next e over = at_ (s.lane p).hand (s.lane p).channel.buffer refl refl
    where
      at_ :
          (h : Hand) (ms : List Message)
          → (s.lane p).hand ≡ h
          → (s.lane p).channel.buffer ≡ ms
          → is_stopped h ≡ false
          → IsAble Move s
      at_ ranging [] idle empty _ = (_, drains p among idle empty e)
      at_ ranging (m ∷ rest) idle full _ = (_, takes p m rest among idle full)
      at_ (holding m) ms has _ _ = (_, cuts p m among has over)
      at_ drained ms _ _ f = absurd (true≢false f)
      at_ (cut_off m) ms _ _ f = absurd (true≢false f)

pub Move-HasServed : (s t : Relay) → Move s t → HasServed s.stage → HasServed t.stage
Move-HasServed s _ (takes _ _ _ _ _ _) h = h
Move-HasServed s _ (drains _ _ _ _ _) h = h
Move-HasServed s _ (forwards _ _ _ _ _) h = h
Move-HasServed s _ (cuts _ _ _ _ _) h = h
Move-HasServed s _ (serves _) h = tt
Move-HasServed s _ (gives_up e) h = absurd (subst HasServed e h)
Move-HasServed s _ (sends_one _ _ _ _) h = h
Move-HasServed s _ (fails _ _ _ _) h = tt
Move-HasServed s _ (cancels _ _) h = tt
Move-HasServed s _ (closes _) h = tt
Move-HasServed s _ (finishes _ _) h = tt

-- What makes the end of a subscription inevitable.
abbrev IsOver : Relay → Type 0
IsOver s = HasServed s.stage × (s.over ≡ true)

goes_on : (s : Relay) → IsOver s → (s.stage ≡ returned) ⊎ IsAble Move s
goes_on s (out, over) = at_ s.stage refl out
  where
    at_ : (st : Stage) → s.stage ≡ st → HasServed st → (s.stage ≡ returned) ⊎ IsAble Move s
    at_ serving e _ = inr (_, cancels e over)
    at_ leaving e _ = inr (_, closes e)
    at_ ending e _ =
        elim (any_lane (λ p. is_stopped (s.lane p).hand) s.partitions
          (λ p m f. stops_next s p m e over f)) [
            | inl all ↦ inr (_, finishes e all)
            | inr able ↦ inr able
          ]
    at_ returned e _ = inl e
    at_ attaching _ h = absurd h
    at_ abandoned _ h = absurd h

-- Once the stream's context is done, a group's subscription that has got to its live loop returns,
-- whichever moves its goroutines make, as long as the publishers pause: the loop ends, each
-- forwarder stops, and the wait for them is over.
pub returns_when_over :
    (s : Relay) → HasServed s.stage → s.over ≡ true → Inevitable Move (λ t. t.stage ≡ returned) s
returns_when_over s out over =
    inevitable_lem Move (λ t. t.stage ≡ returned) IsOver weight (λ u v m _. Move-weight u v m)
      (λ u v m i. (Move-HasServed u v m i.0, Move-over u v m i.1)) goes_on s (out, over)
