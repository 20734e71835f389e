-- ===== src/Broker/Channels/Phases.antt =====
-- The lists of channels in internal/broker/broker.go: where each channel is in its life.
use go_pub_sub.Prelude.{
  ℕ, ◌≡◌, ◌≢◌, refl, sym, ap, ◌∙◌, Bool, true, false, some, List, [], ◌∷◌, ◌++◌, map, arith, ◌==◌,
  ==_iff, if◌then◌else◌, Bool-cases, inl, inr,
}
use go_pub_sub.Text.{Bytes}
use go_pub_sub.GoMap.{GoMap, get}
use go_pub_sub.Broker.{Channel}
use go_pub_sub.Broker.Channels.{new_channel, without, take_message}

-- where a channel is in its life, and the key that its subscription has it under
pub data Phase : Type 0 where
  unused : Phase
  attached : Bytes → Phase
  detached : Phase
  closed : Phase

abbrev pub set_phase : ℕ → Phase → (ℕ → Phase) → ℕ → Phase
set_phase i p phase j = if i == j then p else phase j

abbrev pub contains : ℕ → List Channel → Bool
contains id [] = false
contains id (ch ∷ channels) = if ch.id == id then true else contains id channels

-- The channels under a key are attached to it, each once.
abbrev pub IsLive : (ℕ → Phase) → Bytes → List Channel → Type 0
IsLive phase key [] = Unit {0}
IsLive phase key (ch ∷ channels) =
    (phase ch.id ≡ attached key) × (contains ch.id channels ≡ false) × IsLive phase key channels

abbrev pub AllLive : (ℕ → Phase) → GoMap (List Channel) → Type 0
AllLive phase subs =
    (key : Bytes) (channels : List Channel)
    → get key subs ≡ some channels
    → IsLive phase key channels

-- What a change of the buffers alone does not show.
module _ (f : Channel → Channel) (same : (ch : Channel) → (f ch).id ≡ ch.id) where
  contains-map :
      (id : ℕ) (channels : List Channel) → contains id (map f channels) ≡ contains id channels
  contains-map id [] = refl
  contains-map id (ch ∷ channels) = rw (same ch, contains-map id channels) refl

  pub map-IsLive :
      (phase : ℕ → Phase) (key : Bytes) (channels : List Channel)
      → IsLive phase key channels
      → IsLive phase key (map f channels)
  map-IsLive phase key [] h = tt
  map-IsLive phase key (ch ∷ channels) (at_, once, rest) = (
    ap phase (same ch) ∙ at_,
    contains-map (f ch).id channels ∙ ap (λ i. contains i channels) (same ch) ∙ once,
    map-IsLive phase key channels rest,
  )

contains-take_message :
    (id j : ℕ) (channels : List Channel)
    → contains j (take_message id channels) ≡ contains j channels
unfolding take_message
contains-take_message id j [] = refl
contains-take_message id j (ch ∷ channels) = ground (arith, contains-take_message id j channels)

pub take_message-IsLive :
    (id : ℕ) (phase : ℕ → Phase) (key : Bytes) (channels : List Channel)
    → IsLive phase key channels
    → IsLive phase key (take_message id channels)
unfolding take_message
take_message-IsLive id phase key [] h = tt
take_message-IsLive id phase key (ch ∷ channels) (at_, once, rest) =
    elim (Bool-cases (ch.id == id)) [
      | inl same ↦ rw same (at_, once, rest)
      | inr other ↦ rw other (
        at_,
        contains-take_message id ch.id channels ∙ once,
        take_message-IsLive id phase key channels rest,
      )
    ]

module _ (phase : ℕ → Phase) (key : Bytes) where
  pub not_contained :
      (id : ℕ) (channels : List Channel)
      → IsLive phase key channels
      → phase id ≢ attached key
      → contains id channels ≡ false
  not_contained id [] h away = refl
  not_contained id (ch ∷ channels) (at_, once, rest) away = elim (Bool-cases (ch.id == id)) [
    | inl same ↦ absurd (away (ap phase (sym ((==_iff ch.id id).0 same)) ∙ at_))
    | inr other ↦ rw other (not_contained id channels rest away)
  ]

  -- The phase of a channel that is not in the list does not matter.
  pub set_phase-IsLive :
      (id : ℕ) (p : Phase) (channels : List Channel)
      → IsLive phase key channels
      → contains id channels ≡ false
      → IsLive (set_phase id p phase) key channels
  set_phase-IsLive id p [] h away = tt
  set_phase-IsLive id p (ch ∷ channels) (at_, once, rest) away = (
    ground (arith, ==_iff id ch.id, ==_iff ch.id id),
    once,
    set_phase-IsLive id p channels rest (ground arith),
  )

  contains-without :
      (id j : ℕ) (channels : List Channel)
      → contains j channels ≡ false
      → contains j (without id channels) ≡ false
  unfolding without
  contains-without id j [] h = refl
  contains-without id j (ch ∷ channels) h = ground (arith, contains-without id j channels)

  pub without-IsLive :
      (id : ℕ) (channels : List Channel)
      → IsLive phase key channels
      → IsLive phase key (without id channels) × (contains id (without id channels) ≡ false)
  unfolding without
  without-IsLive id [] h = (tt, refl)
  without-IsLive id (ch ∷ channels) (at_, once, rest) =
      let (live, gone) = without-IsLive id channels rest in
      elim (Bool-cases (ch.id == id)) [
        | inl same ↦
            rw same (rest, ap (λ i. contains i channels) (sym ((==_iff ch.id id).0 same)) ∙ once)
        | inr other ↦
            rw other ((at_, contains-without id ch.id channels once, live), ground (arith, gone))
      ]

pub append-IsLive :
    (phase : ℕ → Phase) (key : Bytes) (id : ℕ) (channels : List Channel)
    → phase id ≡ attached key
    → IsLive phase key channels
    → contains id channels ≡ false
    → IsLive phase key (channels ++ new_channel id ∷ [])
append-IsLive phase key id [] at_id h away = (at_id, refl, tt)
append-IsLive phase key id (ch ∷ channels) at_id (at_, once, rest) away = (
  at_,
  contains_behind ch.id channels (ground (arith, ==_iff id ch.id, ==_iff ch.id id)) once,
  append-IsLive phase key id channels at_id rest (ground arith),
)
  where
    contains_behind :
        (j : ℕ) (chs : List Channel)
        → (id == j) ≡ false
        → contains j chs ≡ false
        → contains j (chs ++ new_channel id ∷ []) ≡ false
    contains_behind j [] other h = ground arith
    contains_behind j (c ∷ chs) other h = ground (arith, contains_behind j chs other)
