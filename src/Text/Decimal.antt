-- ===== src/Text/Decimal.antt =====
-- The verb `%d` of fmt.Sprintf, and why a text that ends in `:%d` can be read back.
pub mod Parse
use go_pub_sub.Prelude.{
  ℕ, zero, suc, ◌+◌, ◌-◌, ◌*◌, ◌/◌, ◌%◌, ◌<◌, ◌≡◌, ◌≢◌, ◌⊎◌, inl, inr, refl, ap, sym, ◌∙◌, List, [],
  ◌∷◌, ◌++◌, arith, ltb, ◌==◌, if◌then◌else◌,
}
use go_pub_sub.Prelude.Int.{ℤ, pos, negsuc}

-- The digits of `n` before `out`. Each round drops a digit, so fuel above `n` is enough.
pub digits : ℕ → ℕ → List ℕ → List ℕ
digits zero n out = out
digits (suc f) n out =
    let rest = digits f (n / 10) ((b'0' + n % 10) ∷ out) in
    if ltb n 10 then (b'0' + n) ∷ out else rest

unfoldable pub decimal : ℤ → List ℕ
unfolding digits
decimal (pos n) = digits (suc n) n []
decimal (negsuc n) = b'-' ∷ digits (suc (suc n)) (suc n) []

-- The number that digits spell behind `n`.
value : ℕ → List ℕ → ℕ
value n [] = n
value n (c ∷ s) = value (n * 10 + (c - b'0')) s

value_nil : (n : ℕ) → value n [] ≡ n
unfolding value
value_nil n = refl

value-digits : (f n : ℕ) (out : List ℕ) → n < f → value 0 (digits f n out) ≡ value n out
unfolding digits value
value-digits zero n out h = absurd (omega arith)
value-digits (suc f) n out h = ground (arith, value-digits f (n / 10) ((b'0' + n % 10) ∷ out))

cons_tail : {x y : ℕ} {xs ys : List ℕ} → x ∷ xs ≡ y ∷ ys → xs ≡ ys
cons_tail e = cc

-- No byte of `s` is `b`.
abbrev pub Lacks : ℕ → List ℕ → Type 0
Lacks b [] = Unit
Lacks b (c ∷ s) = (c ≢ b) × Lacks b s

pub digits-Lacks :
    (b f n : ℕ) (out : List ℕ) → (b < b'0') ⊎ (b'9' < b) → Lacks b out → Lacks b (digits f n out)
unfolding digits
digits-Lacks b zero n out h l = l
digits-Lacks b (suc f) n out h l =
    ground (arith, digits-Lacks b f (n / 10) ((b'0' + n % 10) ∷ out) h)

-- A printed integer holds no colon.
pub decimal-Lacks : (z : ℤ) → Lacks b':' (decimal z)
unfolding decimal
decimal-Lacks (pos n) = digits-Lacks b':' (suc n) n [] (inr (omega arith)) tt
decimal-Lacks (negsuc n) =
    (omega arith, digits-Lacks b':' (suc (suc n)) (suc n) [] (inr (omega arith)) tt)

-- The integer that a print stands for.
read : List ℕ → ℤ
read [] = pos 0
read (c ∷ s) = if c == b'-' then negsuc (value 0 s - 1) else pos (value 0 (c ∷ s))

read_unsigned : (s : List ℕ) → Lacks b'-' s → read s ≡ pos (value 0 s)
unfolding read value
read_unsigned [] l = refl
read_unsigned (c ∷ s) l = ground arith

read_negsuc : (n : ℕ) → read (decimal (negsuc n)) ≡ negsuc n
unfolding read decimal
read_negsuc n =
    ap (λ k. negsuc (k - 1))
      (value-digits (suc (suc n)) (suc n) [] (omega arith) ∙ value_nil (suc n))
    ∙ ground arith

read-decimal : (z : ℤ) → read (decimal z) ≡ z
unfolding decimal
read-decimal (pos n) =
    read_unsigned _ (digits-Lacks b'-' (suc n) n [] (inl (omega arith)) tt)
    ∙ ap pos (value-digits (suc n) n [] (omega arith) ∙ unfold value in refl)
read-decimal (negsuc n) = read_negsuc n

-- Different integers are printed differently.
pub decimal_injective : (a b : ℤ) → decimal a ≡ decimal b → a ≡ b
decimal_injective a b e = sym (read-decimal a) ∙ ap read e ∙ read-decimal b

Lacks-at : (b : ℕ) (xs ys : List ℕ) → ¬ Lacks b (xs ++ b ∷ ys)
Lacks-at b [] ys l = l.0 refl
Lacks-at b (x ∷ xs) ys l = Lacks-at b xs ys l.1

-- What stands before and behind the last `b` of a text is determined by the text.
pub split_at_last :
    (b : ℕ) (xs ys d e : List ℕ)
    → Lacks b d
    → Lacks b e
    → xs ++ b ∷ d ≡ ys ++ b ∷ e
    → (xs ≡ ys) × (d ≡ e)
split_at_last b [] [] d e ld le p = (refl, cc)
split_at_last b [] (y ∷ ys) d e ld le p = absurd (Lacks-at b ys e (rw ((cons_tail p)) at ld))
split_at_last b (x ∷ xs) [] d e ld le p = absurd (Lacks-at b xs d (rw ((sym (cons_tail p))) at le))
split_at_last b (x ∷ xs) (y ∷ ys) d e ld le p =
    let (q, r) = split_at_last b xs ys d e ld le (cons_tail p) in (cc (q, p), r)

printed : decimal (negsuc 119) ≡ b'-' ∷ b'1' ∷ b'2' ∷ b'0' ∷ []
unfolding decimal
printed = refl
