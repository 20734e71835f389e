-- ===== src/Groups/Cover.antt =====
-- Which partitions a share of internal/consumer/group_manager.go holds, and how many.
use mathlib.Core.List.{Mem, mem-cons, not-mem-nil}
use mathlib.Core.Logic.Or
use native.Mathlib.Bridge.{le_prop}
use native.Mathlib.Decide.{ℕ_discrete, dec_lt}
use native.Mathlib.Nat.{mod-lt, div-add-mod, ℕ_set, div-eq_of_lt, div-eq_of_lt-le, mul-add-div}
use go_pub_sub.Prelude.{
  ℕ, zero, suc, ◌+◌, ◌-◌, ◌/◌, ◌%◌, ◌≤◌, ◌<◌, ◌≡◌, ◌↔◌, sym, ap, ◌∙◌, arith, length, if◌then◌else◌,
  ◌==◌, Bool-cases, inl, inr, ==_iff, ltb, lt→ltb, le→not_ltb,
}
use go_pub_sub.Prelude.Int.{pos}
use go_pub_sub.Groups.Shares.{shares}

abbrev InShare : ℕ → ℕ → ℕ → ℕ → ℕ → Type 0
InShare M i n p q = (p ≤ q) × (q < p + n) × (q % M ≡ i)

InShare-prop : (M i n p q : ℕ) → IsProp (InShare M i n p q)
InShare-prop M i n p q = hlevel (le_prop, ℕ_set)

pos_injective : {a b : ℕ} → pos a ≡ pos b → a ≡ b
pos_injective e = cc

share_sound : (M i n p q : ℕ) → Mem (pos q) (shares M i n p) → InShare M i n p q
share_sound M i zero p q h = absurd (not-mem-nil h)
share_sound M i (suc n) p q h = elim (Bool-cases (p % M == i)) [
  | inr miss ↦
      let r = share_sound M i n (p + 1) q (simp miss at h) in (omega arith, omega arith, r.2)
  | inl hit ↦
      Or.elim (InShare-prop M i (suc n) p q) (mem-cons.0 (simp hit at h))
        (λ e.
          let e' : q ≡ p = pos_injective e in
          (omega arith, omega arith, ap (λ k. k % M) e' ∙ (==_iff (p % M) i).0 hit))
        (λ rest. let r = share_sound M i n (p + 1) q rest in (omega arith, omega arith, r.2))
]

share_complete : (M i n p q : ℕ) → InShare M i n p q → Mem (pos q) (shares M i n p)
share_complete M i zero p q h = absurd (omega arith)
share_complete M i (suc n) p q h = elim (ℕ_discrete p q) [
  | yes e ↦
      let hit = (==_iff (p % M) i).1 (ap (λ k. k % M) e ∙ h.2) in
      simp hit (mem-cons.1 (Or.inl (ap pos (sym e))))
  | no later ↦
      let rest = share_complete M i n (p + 1) q (omega arith, omega arith, h.2) in
      elim (Bool-cases (p % M == i)) [
        | inl hit ↦ simp hit (mem-cons.1 (Or.inr rest))
        | inr miss ↦ simp miss rest
      ]
]

-- The share of index `i` of `M` holds exactly the partitions below `n` that are `i` modulo `M`.
pub mem-shares : (M i n q : ℕ) → Mem (pos q) (shares M i n 0) ↔ ((q < n) × (q % M ≡ i))
mem-shares M i n q = (
  λ h. let r = share_sound M i n 0 q h in (omega arith, r.2),
  λ r. share_complete M i n 0 q (omega arith, omega arith, r.1),
)

-- how many of the numbers below `k` are `i` modulo `M`
abbrev pub quota : ℕ → ℕ → ℕ → ℕ
quota M i k = (k + (M - 1 - i)) / M

div_small : (M y : ℕ) → 0 < M → y < M + M → y / M ≡ (if ltb y M then 0 else 1)
div_small M y positive h = elim (dec_lt y M) [
  | yes lt ↦ rw (lt→ltb y M lt) (div-eq_of_lt lt)
  | no ge ↦
      rw (le→not_ltb y M (omega arith)) (div-eq_of_lt-le {k = 1} M (omega arith) (omega arith))
]

-- (p + x) / M, by the digits of `p`
div_split : (M p x : ℕ) → 0 < M → x ≤ M → (p + x) / M ≡ p / M + (if ltb (p % M + x) M then 0 else 1)
div_split M p x positive h =
    ap (λ k. k / M) (omega (arith, div-add-mod p M))
    ∙ mul-add-div positive (p / M) (p % M + x)
    ∙ ap (λ k. p / M + k) (div_small M (p % M + x) positive (omega (arith, mod-lt p positive)))

quota_step :
    (M i p : ℕ) → i < M → quota M i (p + 1) ≡ (if p % M == i then quota M i p + 1 else quota M i p)
quota_step M i p h =
    let positive : 0 < M = omega arith in
    ap (λ k. k / M) (omega arith)
    ∙ div_split M p (M - i) positive (omega arith)
    ∙ ground (arith, div_split M p (M - 1 - i) positive (omega arith), mod-lt p positive)

length-shares_from :
    (M i n p : ℕ) → i < M → length (shares M i n p) + quota M i p ≡ quota M i (p + n)
length-shares_from M i zero p h = let e : p ≡ p + 0 = omega arith in omega (arith, ap (quota M i) e)
length-shares_from M i (suc n) p h =
    ground
      (arith, length-shares_from M i n (p + 1) h, quota_step M i p h, ap (quota M i) (shift p n))
  where
    shift : (a b : ℕ) → a + 1 + b ≡ a + suc b
    shift a b = omega arith

-- It has a `M`-th of the partitions, rounded down or up.
pub length-shares : (M i n : ℕ) → i < M → length (shares M i n 0) ≡ quota M i n
length-shares M i n h =
    let none_below : quota M i 0 ≡ 0 = div-eq_of_lt (omega arith) in
    let all : quota M i (0 + n) ≡ quota M i n = ap (quota M i) (omega arith) in
    omega (arith, length-shares_from M i n 0 h)

pub quota_bounds : (M i n : ℕ) → i < M → (n / M ≤ quota M i n) × (quota M i n ≤ n / M + 1)
quota_bounds M i n h =
    let e = div_split M n (M - 1 - i) (omega arith) (omega arith) in
    elim (Bool-cases (ltb (n % M + (M - 1 - i)) M)) [
      | inl low ↦ (ground (arith, e), ground (arith, e))
      | inr high ↦ (ground (arith, e), ground (arith, e))
    ]
