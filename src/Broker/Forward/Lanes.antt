-- ===== src/Broker/Forward/Lanes.antt =====
-- What a lane of internal/broker/broker.go has taken in, against what it has passed on.
use go_pub_sub.Prelude.{
  ◌≤◌, ◌≡◌, ◌≢◌, refl, sym, ap, ◌∙◌, subst, true, false, List, [], ◌∷◌, ◌++◌, arith, length,
  length-append, drop, length-drop, if◌then◌else◌, append_assoc, append-nil, ltb, Bool,
}
use go_pub_sub.Prelude.Int.{ℤ, eq_ℤ, eq_ℤ_iff}
use go_pub_sub.Storage.{Message}
use go_pub_sub.Broker.Forward.{
  Hand, ranging, holding, drained, cut_off, Lane, set_lane, offer_lane, take_lane, set_hand,
}

-- the messages of a partition, in their order
abbrev pub of_partition : ℤ → List Message → List Message
of_partition p [] = []
of_partition p (m ∷ ms) = if eq_ℤ m.partition p then m ∷ of_partition p ms else of_partition p ms

-- the message that a forwarder has in hand
abbrev pub in_hand : Hand → List Message
in_hand (holding m) = m ∷ []
in_hand (cut_off m) = m ∷ []
in_hand ranging = []
in_hand drained = []

-- what a lane still has
abbrev pub waiting : Lane → List Message
waiting l = in_hand l.hand ++ l.channel.buffer

-- Messages of one partition only.
abbrev pub AllOf : ℤ → List Message → Type 0
AllOf p [] = Unit {0}
AllOf p (m ∷ ms) = (m.partition ≡ p) × AllOf p ms

-- A lane has taken in what it has passed on of its partition, and what it still has; its channel
-- keeps to its capacity.
pub record IsLane (p : ℤ) (passed : List Message) (l : Lane) : Type 0 where
  pub order : l.accepted ≡ of_partition p passed ++ waiting l
  pub own : AllOf p (waiting l)
  pub room : length l.channel.buffer ≤ 64

pub of_partition-append :
    (p : ℤ) (xs ys : List Message)
    → of_partition p (xs ++ ys) ≡ of_partition p xs ++ of_partition p ys
of_partition-append p [] ys = refl
of_partition-append p (m ∷ xs) ys = ground (arith, of_partition-append p xs ys)

AllOf-append : (p : ℤ) (xs ys : List Message) → AllOf p xs → AllOf p ys → AllOf p (xs ++ ys)
AllOf-append p [] ys a b = b
AllOf-append p (m ∷ xs) ys (e, a) b = (e, AllOf-append p xs ys a b)

of_partition-own : (p : ℤ) (m : Message) → m.partition ≡ p → of_partition p (m ∷ []) ≡ m ∷ []
of_partition-own p m e = ground (arith, eq_ℤ_iff m.partition p)

pub of_partition-other : (p : ℤ) (m : Message) → m.partition ≢ p → of_partition p (m ∷ []) ≡ []
of_partition-other p m e = ground (arith, eq_ℤ_iff m.partition p)

module _ (p : ℤ) (passed : List Message) where
  pub offer-IsLane :
      (m : Message) (l : Lane)
      → m.partition ≡ p
      → IsLane p passed l
      → IsLane p passed (offer_lane m l)
  unfolding offer_lane
  offer-IsLane m l e i = at_ (ltb (length l.channel.buffer) 64) refl
    where
      at_ :
          (c : Bool)
          → ltb (length l.channel.buffer) 64 ≡ c
          → IsLane p passed (record {
            channel =
                if c then record l.channel { buffer = l.channel.buffer ++ m ∷ [] } else l.channel;
            hand = l.hand;
            accepted = if c then l.accepted ++ m ∷ [] else l.accepted;
          })
      at_ false h = i
      at_ true h = record {
        order =
            ap (λ ms. ms ++ m ∷ []) i.order
            ∙ append_assoc (of_partition p passed) (waiting l) (m ∷ [])
            ∙ ap (λ ms. of_partition p passed ++ ms)
                (append_assoc (in_hand l.hand) l.channel.buffer (m ∷ []));
        own =
            subst (AllOf p) (append_assoc (in_hand l.hand) l.channel.buffer (m ∷ []))
              (AllOf-append p (waiting l) (m ∷ []) i.own (e, tt));
        room = ground (arith, length-append l.channel.buffer (m ∷ []));
      }

  -- The messages of a lane may change hands.
  same-IsLane :
      (l l' : Lane)
      → l'.accepted ≡ l.accepted
      → waiting l ≡ waiting l'
      → length l'.channel.buffer ≤ 64
      → IsLane p passed l
      → IsLane p passed l'
  same-IsLane l l' same moved fits i = record {
    order = same ∙ i.order ∙ ap (λ ms. of_partition p passed ++ ms) moved;
    own = subst (AllOf p) moved i.own;
    room = fits;
  }

  pub take-IsLane :
      (m : Message) (rest : List Message) (l : Lane)
      → l.hand ≡ ranging
      → l.channel.buffer ≡ m ∷ rest
      → IsLane p passed l
      → IsLane p passed (take_lane m l)
  unfolding take_lane
  take-IsLane m rest l idle full i =
      same-IsLane l (take_lane m l) refl
        (ap (λ h. in_hand h ++ l.channel.buffer) idle ∙ full ∙ sym (ap (λ b. m ∷ drop 1 b) full))
        (omega (arith, i.room, length-drop 1 l.channel.buffer)) i

  pub drain-IsLane :
      (l : Lane) → l.hand ≡ ranging → IsLane p passed l → IsLane p passed (set_hand drained l)
  drain-IsLane l idle i =
      same-IsLane l (set_hand drained l) refl (ap (λ h. in_hand h ++ l.channel.buffer) idle) i.room
        i

  pub cut-IsLane :
      (m : Message) (l : Lane)
      → l.hand ≡ holding m
      → IsLane p passed l
      → IsLane p passed (set_hand (cut_off m) l)
  cut-IsLane m l has i =
      same-IsLane l (set_hand (cut_off m) l) refl (ap (λ h. in_hand h ++ l.channel.buffer) has)
        i.room i

  pub forward-IsLane :
      (m : Message) (l : Lane)
      → l.hand ≡ holding m
      → IsLane p passed l
      → IsLane p (passed ++ m ∷ []) (set_hand ranging l)
  forward-IsLane m l has i = record {
    order =
        i.order
        ∙ ap (λ ms. of_partition p passed ++ ms) held
        ∙ sym (append_assoc (of_partition p passed) (m ∷ []) l.channel.buffer)
        ∙ ap (λ ms. ms ++ l.channel.buffer)
            (ap (λ ms. of_partition p passed ++ ms) (sym (of_partition-own p m own.0))
              ∙ sym (of_partition-append p passed (m ∷ [])));
    own = own.1;
    room = i.room;
  }
    where
      held : waiting l ≡ m ∷ l.channel.buffer
      held = ap (λ h. in_hand h ++ l.channel.buffer) has

      own : AllOf p (m ∷ l.channel.buffer)
      own = subst (AllOf p) held i.own

  -- Another partition's message does not matter.
  pub pass-IsLane :
      (m : Message) (l : Lane) → m.partition ≢ p → IsLane p passed l → IsLane p (passed ++ m ∷ []) l
  pass-IsLane m l other i = record {
    order =
        i.order
        ∙ ap (λ ms. ms ++ waiting l)
            (sym (
              of_partition-append p passed (m ∷ [])
              ∙ ap (λ ms. of_partition p passed ++ ms) (of_partition-other p m other)
              ∙ append-nil (of_partition p passed)));
    own = i.own;
    room = i.room;
  }

-- What holds of the lane that is set, and of the others, holds at every partition.
pub set_lane-cases :
    (Q : Lane → Type 0) (p q : ℤ) (l : Lane) (lane : ℤ → Lane)
    → (p ≡ q → Q l)
    → (p ≢ q → Q (lane q))
    → Q (set_lane p l lane q)
set_lane-cases Q p q l lane same other = at_ (eq_ℤ p q) (eq_ℤ_iff p q).0 (eq_ℤ_iff p q).1
  where
    at_ : (c : Bool) → (c ≡ true → p ≡ q) → (p ≡ q → c ≡ true) → Q (if c then l else lane q)
    at_ true yes_ _ = same (yes_ refl)
    at_ false _ no_ = other (λ e. differ (no_ e))
      where
        differ : false ≡ true → ⊥
        differ e = cc
