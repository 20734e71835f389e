-- ===== src/Text/Decimal/Parse.antt =====
-- `strconv.ParseInt(s, 10, 64)`, and that it reads back what `strconv.FormatInt(i, 10)` prints.
use go_pub_sub.Prelude.{
  ℕ, zero, suc, ◌+◌, ◌-◌, ◌*◌, ◌/◌, ◌%◌, ◌^◌, ◌<◌, ◌≡◌, ◌≢◌, ◌⊎◌, inl, inr, refl, ap, ◌∙◌, [], ◌∷◌,
  arith, ltb, leb, ◌==◌, ◌&&◌, Option, none, some, if◌then◌else◌,
}
use go_pub_sub.Prelude.Int.{ℤ, pos, negsuc}
use go_pub_sub.Text.{Bytes}
use go_pub_sub.Text.Decimal.{decimal, digits, digits-Lacks, Lacks}

-- The number that digits spell behind `n`.
parse_digits : ℕ → Bytes → Option ℕ
parse_digits n [] = some n
parse_digits n (c ∷ s) =
    let rest = parse_digits (n * 10 + (c - b'0')) s in
    if leb b'0' c && leb c b'9' then rest else none

parse_unsigned : Bytes → Option ℕ
parse_unsigned [] = none
parse_unsigned (c ∷ s) = parse_digits 0 (c ∷ s)

-- An error is none: no digits, another character, or a value that has more than 64 bits.
positive : Option ℕ → Option ℤ
positive none = none
positive (some n) = if ltb n (2 ^ 63) then some (pos n) else none

negative : Option ℕ → Option ℤ
negative none = none
negative (some zero) = some (pos 0)
negative (some (suc n)) = if ltb n (2 ^ 63) then some (negsuc n) else none

unfoldable pub parse_int : Bytes → Option ℤ
unfolding parse_unsigned parse_digits positive negative
parse_int [] = none
parse_int (c ∷ s) =
    if c == b'-'
    then negative (parse_unsigned s)
    else if c == b'+'
    then positive (parse_unsigned s)
    else positive (parse_unsigned (c ∷ s))

-- The integers of 64 bits.
abbrev pub IsInt64 : ℤ → Type 0
IsInt64 (pos n) = n < 2 ^ 63
IsInt64 (negsuc n) = n < 2 ^ 63

parse_digits-digits :
    (f n : ℕ) (out : Bytes) → n < f → parse_digits 0 (digits f n out) ≡ parse_digits n out
unfolding digits parse_digits
parse_digits-digits zero n out h = absurd (omega arith)
parse_digits-digits (suc f) n out h =
    ground (arith, parse_digits-digits f (n / 10) ((b'0' + n % 10) ∷ out))

parse_unsigned-digits :
    (f n : ℕ) (out : Bytes)
    → (out ≢ []) ⊎ (0 < f)
    → parse_unsigned (digits f n out) ≡ parse_digits 0 (digits f n out)
unfolding digits parse_unsigned
parse_unsigned-digits zero n [] (inl h) = absurd (h refl)
parse_unsigned-digits zero n [] (inr h) = absurd (omega arith)
parse_unsigned-digits zero n (c ∷ out) h = refl
parse_unsigned-digits (suc f) n out h =
    ground (arith, parse_unsigned-digits f (n / 10) ((b'0' + n % 10) ∷ out) (inl (λ e. cc e)))

unsigned_lem : (n : ℕ) → parse_unsigned (digits (suc n) n []) ≡ some n
unsigned_lem n =
    parse_unsigned-digits (suc n) n [] (inr (omega arith))
    ∙ parse_digits-digits (suc n) n [] (omega arith)
    ∙ unfold parse_digits in refl

parse_int_unsigned :
    (s : Bytes) → Lacks b'-' s → Lacks b'+' s → parse_int s ≡ positive (parse_unsigned s)
unfolding parse_int
parse_int_unsigned [] l k = unfold positive parse_unsigned in refl
parse_int_unsigned (c ∷ s) l k = ground arith

-- An integer of 64 bits is read back as it was printed.
pub parse_int-decimal : (z : ℤ) → IsInt64 z → parse_int (decimal z) ≡ some z
unfolding decimal positive parse_int negative
parse_int-decimal (pos n) h =
    parse_int_unsigned (digits (suc n) n []) (digits-Lacks b'-' (suc n) n [] (inl (omega arith)) tt)
      (digits-Lacks b'+' (suc n) n [] (inl (omega arith)) tt)
    ∙ ap positive (unsigned_lem n)
    ∙ ground arith
parse_int-decimal (negsuc n) h = ap negative (unsigned_lem (suc n)) ∙ ground arith
