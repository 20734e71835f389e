-- ===== src/Broker/Forward/Left.antt =====
-- That a group's subscription in internal/broker/broker.go ends once it is out of its live loop.
use go_pub_sub.Prelude.{◌≡◌, refl, sym, subst, true}
use go_pub_sub.Runs.{Inevitable}
use go_pub_sub.Broker.Forward.{
  Stage, attaching, serving, leaving, ending, returned, abandoned, Relay, Move, takes, drains,
  forwards, cuts, serves, gives_up, sends_one, fails, cancels, closes, finishes, Event, attaches,
  offers, disconnects, Reach, stay, moved, happened,
}
use go_pub_sub.Broker.Forward.Ends.{HasServed, returns_when_over}

-- The handler is out of its live loop.
abbrev pub HasLeft : Stage → Type 0
HasLeft leaving = Unit {0}
HasLeft ending = Unit {0}
HasLeft returned = Unit {0}
HasLeft _ = ⊥

-- Outside the loop the context is done.
abbrev DoneOnceLeft : Relay → Type 0
DoneOnceLeft s = HasLeft s.stage → s.over ≡ true

Move-DoneOnceLeft : (s t : Relay) → Move s t → DoneOnceLeft s → DoneOnceLeft t
Move-DoneOnceLeft s _ (takes _ _ _ _ _ _) i = i
Move-DoneOnceLeft s _ (drains _ _ _ _ _) i = i
Move-DoneOnceLeft s _ (forwards _ _ _ _ _) i = i
Move-DoneOnceLeft s _ (cuts _ _ _ _ _) i = i
Move-DoneOnceLeft s _ (serves _) i = λ h. absurd h
Move-DoneOnceLeft s _ (gives_up _) i = λ h. absurd h
Move-DoneOnceLeft s _ (sends_one _ _ _ _) i = i
Move-DoneOnceLeft s _ (fails _ _ _ _) i = λ _. refl
Move-DoneOnceLeft s _ (cancels _ over) i = λ _. over
Move-DoneOnceLeft s _ (closes e) i = λ _. i (subst HasLeft (sym e) tt)
Move-DoneOnceLeft s _ (finishes e _) i = λ _. i (subst HasLeft (sym e) tt)

Event-DoneOnceLeft : (s t : Relay) → Event s t → DoneOnceLeft s → DoneOnceLeft t
Event-DoneOnceLeft s _ (attaches _ _ _ _) i = i
Event-DoneOnceLeft s _ (offers _ _ _ _ _) i = i
Event-DoneOnceLeft s _ (disconnects _) i = λ _. refl

Reach-DoneOnceLeft : (s : Relay) → Reach s → DoneOnceLeft s
Reach-DoneOnceLeft _ stay = λ h. absurd h
Reach-DoneOnceLeft s (moved {t = t} r m) = Move-DoneOnceLeft t s m (Reach-DoneOnceLeft t r)
Reach-DoneOnceLeft s (happened {t = t} r e) = Event-DoneOnceLeft t s e (Reach-DoneOnceLeft t r)

left-served : (st : Stage) → HasLeft st → HasServed st
left-served leaving h = tt
left-served ending h = tt
left-served returned h = tt
left-served attaching h = absurd h
left-served serving h = absurd h
left-served abandoned h = absurd h

-- Once the live loop of a group's subscription has ended, be it over a `Send` that failed, with
-- which gRPC ends the stream's context, or over the context, the handler returns, whichever moves
-- its goroutines make, as long as the publishers pause: no forwarder keeps the clean-up waiting.
pub returns_once_left :
    (s : Relay) → Reach s → HasLeft s.stage → Inevitable Move (λ t. t.stage ≡ returned) s
returns_once_left s r left =
    returns_when_over s (left-served s.stage left) (Reach-DoneOnceLeft s r left)
