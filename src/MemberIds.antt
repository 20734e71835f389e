-- ===== src/MemberIds.antt =====
-- internal/utils/memberId.go: `NewMemberID`. What `rand.Read` of crypto/rand does to the buffer is
-- a parameter: an error and the buffer as it leaves it.
use go_pub_sub.Prelude.{
  ℕ, ◌+◌, ◌/◌, ◌%◌, ◌<◌, ◌≡◌, ◌↔◌, refl, sym, true, false, Bool, ap, ap₂, Option, none, some, [],
  ◌∷◌, ◌++◌, arith, ltb, if◌then◌else◌,
}
use mathlib.Core.Bool.{true≢false}
use go_pub_sub.Text.{Bytes, codes}
use go_pub_sub.Go.{Error}

-- "0123456789abcdef"[d]
abbrev pub hex_digit : ℕ → ℕ
hex_digit d = if ltb d 10 then 48 + d else 87 + d

-- hex.EncodeToString(b), of the package encoding/hex
unfoldable pub hex_of : Bytes → Bytes
hex_of [] = []
hex_of (b ∷ bs) = hex_digit (b / 16) ∷ hex_digit (b % 16) ∷ hex_of bs

-- b := make([]byte, 8)
abbrev pub zero_buffer : Bytes
zero_buffer = 0 ∷ 0 ∷ 0 ∷ 0 ∷ 0 ∷ 0 ∷ 0 ∷ 0 ∷ []

unfoldable pub member_id : Option Error × Bytes → Bytes
member_id (some e, b) = codes "m-" ++ hex_of b
member_id (none, b) = hex_of b

unfoldable pub new_member_id : (Bytes → Option Error × Bytes) → Bytes
new_member_id read = member_id (read zero_buffer)

-- Every element is a byte.
abbrev pub AllBytes : Bytes → Type 0
AllBytes [] = Unit {0}
AllBytes (b ∷ bs) = (b < 256) × AllBytes bs

hex_digit_injective : (a b : ℕ) → a < 16 → b < 16 → hex_digit a ≡ hex_digit b → a ≡ b
hex_digit_injective a b h k e = ground arith

hex_of_injective : (a b : Bytes) → AllBytes a → AllBytes b → hex_of a ≡ hex_of b → a ≡ b
unfolding hex_of
hex_of_injective [] [] ha hb e = refl
hex_of_injective [] (y ∷ b) ha hb e = absurd (cc e)
hex_of_injective (x ∷ a) [] ha hb e = absurd (cc e)
hex_of_injective (x ∷ a) (y ∷ b) (hx, ha) (hy, hb) e =
    let (high, low, rest) = three e in
    let h = hex_digit_injective (x / 16) (y / 16) (omega arith) (omega arith) high in
    let l = hex_digit_injective (x % 16) (y % 16) (omega arith) (omega arith) low in
    ap₂ ◌∷◌ (omega arith) (hex_of_injective a b ha hb rest)
  where
    three :
        {d d' e e' : ℕ} {s s' : Bytes}
        → Path Bytes (d ∷ e ∷ s) (d' ∷ e' ∷ s')
        → (d ≡ d') × (e ≡ e') × (s ≡ s')
    three q = (cc, cc, cc)

-- 'm' is no hexadecimal digit.
no_fallback : (a b : Bytes) → AllBytes b → codes "m-" ++ hex_of a ≡ hex_of b → ⊥
unfolding hex_of
no_fallback a [] hb e = cc e
no_fallback a (y ∷ b) (hy, hb) e = differ (first e)
  where
    first : {c d : ℕ} {s s' : Bytes} → Path Bytes (c ∷ s) (d ∷ s') → c ≡ d
    first q = cc

    differ : 109 ≡ hex_digit (y / 16) → ⊥
    differ q = ground arith

abbrev pub is_failed : Option Error → Bool
is_failed none = false
is_failed (some e) = true

member_id_iff :
    (x y : Option Error × Bytes)
    → AllBytes x.1
    → AllBytes y.1
    → (member_id x ≡ member_id y) ↔ ((is_failed x.0 ≡ is_failed y.0) × (x.1 ≡ y.1))
unfolding member_id
member_id_iff (none, a) (none, b) ha hb =
    (λ e. (refl, hex_of_injective a b ha hb e), λ e. ap hex_of e.1)
member_id_iff (none, a) (some _, b) ha hb =
    (λ e. absurd (no_fallback b a ha (sym e)), λ e. absurd (true≢false (sym e.0)))
member_id_iff (some _, a) (none, b) ha hb =
    (λ e. absurd (no_fallback a b hb e), λ e. absurd (true≢false e.0))
member_id_iff (some _, a) (some _, b) ha hb =
    (λ e. (refl, hex_of_injective a b ha hb (tail e)), λ e. ap (λ c. codes "m-" ++ hex_of c) e.1)
  where
    tail : {c d : ℕ} {s s' : Bytes} → Path Bytes (c ∷ d ∷ s) (c ∷ d ∷ s') → s ≡ s'
    tail q = cc

-- Two calls of `NewMemberID` return the same id exactly if the buffers hold the same bytes after
-- `rand.Read`, and both reads failed or neither did: so two members whose reads both fail and leave
-- the buffer as it was have one id, and apart from that ids differ as their random bytes do.
pub new_member_id_iff :
    (read read' : Bytes → Option Error × Bytes)
    → AllBytes (read zero_buffer).1
    → AllBytes (read' zero_buffer).1
    → (new_member_id read ≡ new_member_id read') ↔ (
        (is_failed (read zero_buffer).0 ≡ is_failed (read' zero_buffer).0)
        × ((read zero_buffer).1 ≡ (read' zero_buffer).1))
unfolding new_member_id
new_member_id_iff read read' h h' = member_id_iff (read zero_buffer) (read' zero_buffer) h h'
