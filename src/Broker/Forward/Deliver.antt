-- ===== src/Broker/Forward/Deliver.antt =====
-- A group's subscription of internal/broker/broker.go delivers what its channels took in.
use go_pub_sub.Prelude.{
  ◌<◌, ◌≡◌, ◌≢◌, refl, sym, ap, ◌∙◌, subst, Bool, true, false, List, [], ◌∷◌, ◌++◌, arith, length,
  ◌⊎◌, inl, inr, append-nil, ap₂, Bool-cases,
}
use mathlib.Core.Bool.{true≢false}
use mathlib.Core.List.{Mem}
use go_pub_sub.Runs.{Inevitable, IsAble, inevitable_lem}
use go_pub_sub.Broker.Forward.Weight.{weight, Move-weight}
use go_pub_sub.Prelude.Int.{ℤ}
use go_pub_sub.Storage.{Message}
use go_pub_sub.Broker.Forward.{
  Hand, ranging, holding, drained, cut_off, Stage, attaching, serving, leaving, ending, returned,
  abandoned, Relay, is_stopped, Move, takes, forwards, sends_one, drains, cuts, serves, gives_up,
  fails, cancels, closes, finishes, Reach, moved, IsOpen,
}
use go_pub_sub.Broker.Forward.Lanes.{of_partition, in_hand}
use go_pub_sub.Broker.Forward.Order.{relay_order}
use go_pub_sub.Broker.Forward.Stops.{Excused, Reach-StopsExcused}
use go_pub_sub.Broker.Forward.Ends.{HasServed, Move-HasServed, any_lane}

-- The forwarder waits for a message, and there is none.
abbrev pub is_idle : Hand → List Message → Bool
is_idle ranging [] = true
is_idle _ _ = false

module _ (s : Relay) (p : ℤ) (among : Mem p s.partitions) where
  -- With room in the central channel, a forwarder goes on until its channel is empty.
  passes_next :
      length s.central < 256
      → is_stopped (s.lane p).hand ≡ false
      → is_idle (s.lane p).hand (s.lane p).channel.buffer ≡ false
      → IsAble Move s
  passes_next free = at_ (s.lane p).hand (s.lane p).channel.buffer refl refl
    where
      at_ :
          (h : Hand) (ms : List Message)
          → (s.lane p).hand ≡ h
          → (s.lane p).channel.buffer ≡ ms
          → is_stopped h ≡ false
          → is_idle h ms ≡ false
          → IsAble Move s
      at_ ranging [] _ _ _ f = absurd (true≢false f)
      at_ ranging (m ∷ rest) idle full _ _ = (_, takes p m rest among idle full)
      at_ (holding m) ms has _ _ _ = (_, forwards p m among has free)
      at_ drained ms _ _ f _ = absurd (true≢false f)
      at_ (cut_off m) ms _ _ f _ = absurd (true≢false f)

-- Nothing that the channels took in is left behind.
abbrev pub IsDelivered : Relay → Type 0
IsDelivered s = (p : ℤ) → Mem p s.partitions → of_partition p s.sends ≡ (s.lane p).accepted

idle-waiting : (h : Hand) (ms : List Message) → is_idle h ms ≡ true → in_hand h ++ ms ≡ []
idle-waiting ranging [] _ = refl
idle-waiting ranging (m ∷ ms) f = absurd (true≢false (sym f))
idle-waiting (holding m) ms f = absurd (true≢false (sym f))
idle-waiting drained ms f = absurd (true≢false (sym f))
idle-waiting (cut_off m) ms f = absurd (true≢false (sym f))

-- Past its loop over the partitions, and in its live loop only while the client is connected.
abbrev IsServed : Relay → Type 0
IsServed s = Reach s × HasServed s.stage × (s.stage ≡ serving → s.over ≡ false)

abbrev Ends : Relay → Type 0
Ends s = (s.stage ≢ serving) ⊎ IsDelivered s

Move-live :
    (s t : Relay)
    → Move s t
    → HasServed s.stage
    → (s.stage ≡ serving → s.over ≡ false)
    → t.stage ≡ serving
    → t.over ≡ false
Move-live s _ (takes _ _ _ _ _ _) h live e = live e
Move-live s _ (drains _ _ _ _ _) h live e = live e
Move-live s _ (forwards _ _ _ _ _) h live e = live e
Move-live s _ (cuts _ _ _ _ _) h live e = live e
Move-live s _ (serves f) h live e = absurd (subst HasServed f h)
Move-live s _ (gives_up f) h live e = absurd (subst HasServed f h)
Move-live s _ (sends_one _ _ _ _) h live e = live e
Move-live s _ (fails _ _ _ _) h live e = cc
Move-live s _ (cancels _ _) h live e = cc
Move-live s _ (closes _) h live e = cc
Move-live s _ (finishes _ _) h live e = cc

Move-IsServed : (s t : Relay) → Move s t → IsServed s → IsServed t
Move-IsServed s t m (r, h, live) = (moved r m, Move-HasServed s t m h, Move-live s t m h live)

all_sent : (s : Relay) → IsServed s → s.stage ≡ serving → Ends s ⊎ IsAble Move s
all_sent s (r, _, connected) e = at_ s.central refl
  where
    live : s.over ≡ false
    live = connected e

    at_ : (ms : List Message) → s.central ≡ ms → Ends s ⊎ IsAble Move s
    at_ (m ∷ rest) full = inr (_, sends_one m rest e full)
    at_ [] empty =
        elim (any_lane (λ p. is_idle (s.lane p).hand (s.lane p).channel.buffer) s.partitions
          (λ p among f.
            passes_next s p among (let n = ap length empty in omega arith) (running p among) f)) [
              | inl idle ↦ inl (inr (λ p among. sym (sent p (idle p among))))
              | inr able ↦ inr able
            ]
      where
        excuse : Excused s → ⊥
        excuse (inl over) = true≢false (sym over ∙ live)
        excuse (inr shut) = shut (subst IsOpen (sym e) tt)

        running : (p : ℤ) → Mem p s.partitions → is_stopped (s.lane p).hand ≡ false
        running p among = elim (Bool-cases (is_stopped (s.lane p).hand)) [
          | inl f ↦ absurd (excuse (Reach-StopsExcused s r p among f))
          | inr f ↦ f
        ]

        sent :
            (p : ℤ)
            → is_idle (s.lane p).hand (s.lane p).channel.buffer ≡ true
            → (s.lane p).accepted ≡ of_partition p s.sends
        sent p f =
            relay_order s p r
            ∙ ap (λ ms. of_partition p s.sends ++ ms)
                (ap₂ ◌++◌ (ap (of_partition p) empty)
                  (idle-waiting (s.lane p).hand (s.lane p).channel.buffer f))
            ∙ append-nil (of_partition p s.sends)

delivers_next : (s : Relay) → IsServed s → Ends s ⊎ IsAble Move s
delivers_next s i = at_ s.stage refl
  where
    at_ : (st : Stage) → s.stage ≡ st → Ends s ⊎ IsAble Move s
    at_ serving e = all_sent s i e
    at_ attaching e = inl (inl (λ f. cc))
    at_ leaving e = inl (inl (λ f. cc))
    at_ ending e = inl (inl (λ f. cc))
    at_ returned e = inl (inl (λ f. cc))
    at_ abandoned e = inl (inl (λ f. cc))

-- In the live loop of a group's subscription, with the client connected and the publishers pausing,
-- whichever moves the goroutines make: either `Send` fails once, and the loop ends, or every
-- message that the channels took in goes to `Send`, the messages of each partition in their order.
pub delivers_all :
    (s : Relay)
    → Reach s
    → s.stage ≡ serving
    → s.over ≡ false
    → Inevitable Move (λ t. (t.stage ≢ serving) ⊎ IsDelivered t) s
delivers_all s r e live =
    inevitable_lem Move Ends IsServed weight (λ u v m _. Move-weight u v m) Move-IsServed
      delivers_next s (r, subst HasServed (sym e) tt, λ _. live)
