-- ===== src/Runs.antt =====
-- Runs of goroutines that take turns in any order: what comes to hold whichever step is taken next.
use go_pub_sub.Prelude.{
  ℕ, zero, suc, ◌+◌, ◌≤◌, ◌<◌, subst, Bool-cases, ◌≡◌, ◌≢◌, ◌⊎◌, inl, inr, Bool, true, false, ◌==◌,
  ==_iff, if◌then◌else◌, arith, refl,
}

-- `P` holds sooner or later, whichever steps are taken.
pub data Inevitable {S : Type 0} (Move : S → S → Type 0) (P : S → Type 0) : S → Type 0 where
  now : {s : S} → P s → Inevitable Move P s
  later : {s t : S} → Move s t → ((u : S) → Move s u → Inevitable Move P u) → Inevitable Move P s

module _ {S : Type 0} (Move : S → S → Type 0) where
  -- Some step can be taken.
  abbrev pub IsAble : S → Type 0
  IsAble s = (t : S) × Move s t

  -- If every step lowers a weight, and while an invariant holds but `P` does not some step can be
  -- taken, then `P` is inevitable.
  module _ (P I : S → Type 0) (weight : S → ℕ)
      (less : (s t : S) → Move s t → I s → weight t < weight s)
      (keeps : (s t : S) → Move s t → I s → I t) (ables : (s : S) → I s → P s ⊎ IsAble s) where
    within : (n : ℕ) (s : S) → weight s < n → I s → Inevitable Move P s
    within zero s h i = absurd (omega arith)
    within (suc n) s h i = elim (ables s i) [
      | inl p ↦ now p
      | inr (t, step) ↦ later step (λ u m. within n u (omega (arith, less s u m i)) (keeps s u m i))
    ]

    pub inevitable_lem : (s : S) → I s → Inevitable Move P s
    inevitable_lem s i = within (suc (weight s)) s (omega arith) i

-- a family with another value at one index
abbrev pub set_at : {A : Type 0} → ℕ → A → (ℕ → A) → ℕ → A
set_at i a f j = if i == j then a else f j

pub set_at-cases :
    {A : Type 0} (Q : A → Type 0) (i j : ℕ) (a : A) (f : ℕ → A)
    → (i ≡ j → Q a)
    → (i ≢ j → Q (f j))
    → Q (set_at i a f j)
set_at-cases Q i j a f same other = at_ (i == j) (==_iff i j).0 (==_iff i j).1
  where
    at_ : (c : Bool) → (c ≡ true → i ≡ j) → (i ≡ j → c ≡ true) → Q (if c then a else f j)
    at_ true yes_ _ = same (yes_ refl)
    at_ false _ no_ = other (λ e. differ (no_ e))
      where
        differ : false ≡ true → ⊥
        differ e = cc

-- A test holds at all indices below `n`, or fails at one.
pub search_below :
    (test : ℕ → Bool) (n : ℕ)
    → ((i : ℕ) → i < n → test i ≡ true) ⊎ ((i : ℕ) × (i < n) × (test i ≡ false))
search_below test zero = inl (λ i h. absurd (omega arith))
search_below test (suc n) = at_ (test n) refl (search_below test n)
  where
    at_ :
        (c : Bool)
        → test n ≡ c
        → ((i : ℕ) → i < n → test i ≡ true) ⊎ ((i : ℕ) × (i < n) × (test i ≡ false))
        → ((i : ℕ) → i < suc n → test i ≡ true) ⊎ ((i : ℕ) × (i < suc n) × (test i ≡ false))
    at_ false e _ = inr (n, omega arith, e)
    at_ true e (inr (i, h, f)) = inr (i, omega arith, f)
    at_ true e (inl all) = inl (λ i h. grind (arith, all i))

-- the sum of a weight below `n`
abbrev pub total : (ℕ → ℕ) → ℕ → ℕ
total f zero = 0
total f (suc n) = f n + total f n

total-le : (f g : ℕ → ℕ) (n : ℕ) → ((j : ℕ) → g j ≤ f j) → total g n ≤ total f n
total-le f g zero h = omega arith
total-le f g (suc n) h = omega (arith, h n, total-le f g n h)

-- A sum gets less when one part does, and none gets more.
pub total-less :
    (f g : ℕ → ℕ) (n i : ℕ) → ((j : ℕ) → g j ≤ f j) → i < n → g i < f i → total g n < total f n
total-less f g zero i h below less = absurd (omega arith)
total-less f g (suc n) i h below less = elim (Bool-cases (i == n)) [
  | inl e ↦
      let same : i ≡ n = (==_iff i n).0 e in
      omega (arith, total-le f g n h, subst (λ k. g k < f k) same less)
  | inr d ↦
      let other : i < n = grind (arith, ==_iff i n) in
      omega (arith, h n, total-less f g n i h other less)
]
