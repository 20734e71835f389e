-- ===== src/Partitions/Choice.antt =====
-- Which partition `Append` of internal/broker/partition_manager.go chooses.
use native.Mathlib.Nat.{mod-lt, mod-eq_of_lt, mod-eq-sub-mod, mod-add-mod}
use native.Mathlib.Decide.{dec_lt}
use go_pub_sub.Prelude.{
  ℕ, zero, suc, ◌+◌, ◌%◌, ◌^◌, ◌≤◌, ◌<◌, ◌≡◌, refl, ap, ◌∙◌, ◌⊎◌, inl, inr, [], ◌∷◌, arith, ltb,
  lt→ltb, le→not_ltb, sym, ◌-◌, if◌then◌else◌,
}
use go_pub_sub.Prelude.Int.{ℤ, pos, negsuc, pos_part, ◌≤ℤ◌, int64_of_pos}
use go_pub_sub.Text.{Bytes, bytes_eq_refl}
use go_pub_sub.GoMap.{get, get-put}
use go_pub_sub.Go.{Result, ok, err, invalid_hint}
use go_pub_sub.Partitions.{
  PartitionManager, or_zero, fnv32a, hash_to_partition, round_robin, choose,
}

-- the counter of a topic, 0 for a topic that has none yet
abbrev pub counter : PartitionManager → Bytes → ℤ
counter pm topic = or_zero (get topic pm.rr)

-- `p` is a partition of a topic that has `n`.
abbrev pub IsPartition : ℕ → ℤ → Type 0
IsPartition n p = (pos 0 ≤ℤ p) × (pos_part p < n)

hash_in_range :
    (key : Bytes) (n : ℕ) → 0 < n → n ≤ 2 ^ 31 → IsPartition n (hash_to_partition key (pos n))
unfolding hash_to_partition
hash_in_range key n h small = ground (arith, mod-lt (fnv32a 2166136261 key) h)

round_robin_lem :
    (pm : PartitionManager) (t : Bytes) (n c : ℕ)
    → counter pm t ≡ pos c
    → c + 1 < 2 ^ 63
    → (round_robin pm t (pos n)).0 ≡ pos ((c + 1) % n)
unfolding round_robin
round_robin_lem pm t n c e fits = rw (e, round_robin) (ground (arith, int64_of_pos (c + 1) fits))

-- For a topic with `n` partitions, and a counter short of its 63 bits, the choice fails exactly on
-- a hint that is not below `n`; else it is a partition of the topic: the hint if that is not
-- negative, and for a message with no key the next number in turn.
pub choose_lem :
    (pm : PartitionManager) (t : Bytes) (n c : ℕ) (hint : ℤ) (key : Bytes)
    → 0 < n
    → n ≤ 2 ^ 31
    → counter pm t ≡ pos c
    → c + 1 < 2 ^ 63
    → let r = (choose pm t (pos n) hint key).0 in
      ((pos n ≤ℤ hint) × (r ≡ err (invalid_hint hint t (pos n))))
      ⊎ ((p : ℤ) × (r ≡ ok p)
          × IsPartition n p
          × (pos 0 ≤ℤ hint → p ≡ hint)
          × (hint ≤ℤ negsuc 0 → key ≡ [] → p ≡ pos ((c + 1) % n)))
unfolding choose
choose_lem pm t n c (pos h) key pos_n small e fits = elim (dec_lt h n) [
  | yes inside ↦ inr (pos h, ground arith, omega arith, λ _. refl, λ neg _. absurd (omega arith))
  | no outside ↦ inl (omega arith, ground arith)
]
choose_lem pm t n c (negsuc h) [] pos_n small e fits = inr (
  pos ((c + 1) % n),
  ground (arith, round_robin_lem pm t n c e fits),
  omega (arith, mod-lt (c + 1) pos_n),
  λ le. absurd (omega arith),
  λ _ _. refl,
)
choose_lem pm t n c (negsuc h) (x ∷ key) pos_n small e fits = inr (
  hash_to_partition (x ∷ key) (pos n),
  ground arith,
  hash_in_range (x ∷ key) n pos_n small,
  λ le. absurd (omega arith),
  λ _ q. cc,
)

-- the state after `k` messages with no key and no hint, for a topic with `n` partitions
pub after_turns : PartitionManager → Bytes → ℕ → ℕ → PartitionManager
after_turns pm t n zero = pm
after_turns pm t n (suc k) = (choose (after_turns pm t n k) t (pos n) (negsuc 0) []).1

-- the partition of the message after those
abbrev pub turn : PartitionManager → Bytes → ℕ → ℕ → Result ℤ
turn pm t n k = (choose (after_turns pm t n k) t (pos n) (negsuc 0) []).0

counter-round_robin :
    (pm : PartitionManager) (t : Bytes) (n c : ℕ)
    → counter pm t ≡ pos c
    → c + 1 < 2 ^ 63
    → counter (round_robin pm t (pos n)).1 t ≡ pos (c + 1)
unfolding round_robin
counter-round_robin pm t n c e fits =
    rw (get-put, bytes_eq_refl, e) (ground (arith, int64_of_pos (c + 1) fits))

counter-after_turns :
    (pm : PartitionManager) (t : Bytes) (n c k : ℕ)
    → counter pm t ≡ pos c
    → c + k < 2 ^ 63
    → counter (after_turns pm t n k) t ≡ pos (c + k)
unfolding after_turns choose
counter-after_turns pm t n c zero e fits = e ∙ ap pos (omega arith)
counter-after_turns pm t n c (suc k) e fits =
    counter-round_robin (after_turns pm t n k) t n (c + k)
      (counter-after_turns pm t n c k e (omega arith)) (omega arith)
    ∙ ap pos (omega arith)

pub turn_lem :
    (pm : PartitionManager) (t : Bytes) (n c k : ℕ)
    → counter pm t ≡ pos c
    → c + k + 1 < 2 ^ 63
    → turn pm t n k ≡ ok (pos ((c + k + 1) % n))
unfolding choose
turn_lem pm t n c k e fits = ap ok (
    round_robin_lem (after_turns pm t n k) t n (c + k)
      (counter-after_turns pm t n c k e (omega arith)) fits)

mod_split : (r i n : ℕ) → r < n → i < n → (r + i) % n ≡ (if ltb (r + i) n then r + i else r + i - n)
mod_split r i n hr hi = elim (dec_lt (r + i) n) [
  | yes h ↦ rw (lt→ltb (r + i) n h) (mod-eq_of_lt h)
  | no h ↦
      rw (le→not_ltb (r + i) n (omega arith))
        (mod-eq-sub-mod (omega arith) ∙ mod-eq_of_lt (omega arith))
]

turn_from :
    (a i n : ℕ) → i < n → (a + i) % n ≡ (if ltb (a % n + i) n then a % n + i else a % n + i - n)
turn_from a i n hi = sym (mod-add-mod a n i) ∙ mod_split (a % n) i n (mod-lt a (omega arith)) hi

-- Of `n` numbers in a row exactly one is `p` modulo `n`.
meets :
    (a p n : ℕ)
    → p < n
    → (i : ℕ) × (i < n) × ((a + i) % n ≡ p) × ((j : ℕ) → j < n → (a + j) % n ≡ p → j ≡ i)
meets a p n hp =
    let r = a % n in
    let hr : r < n = mod-lt a (omega arith) in
    let i = if ltb p r then p + n - r else p - r in
    let hi : i < n = ground arith in
    (i, hi, ground (arith, turn_from a i n hi), λ j hj q. ground (arith, turn_from a j n hj))

-- Among `n` messages in a row with no key and no hint, each of the topic's `n` partitions gets
-- exactly one, until the counter reaches 2^63.
pub turns_fair :
    (pm : PartitionManager) (t : Bytes) (n c p : ℕ)
    → counter pm t ≡ pos c
    → c + n < 2 ^ 63
    → p < n
    → (i : ℕ) × (i < n)
      × (turn pm t n i ≡ ok (pos p))
      × ((j : ℕ) → j < n → turn pm t n j ≡ ok (pos p) → j ≡ i)
turns_fair pm t n c p e fits hp =
    let (i, hi, hit, only) = meets (c + 1) p n hp in
    (
      i,
      hi,
      turn_lem pm t n c i e (omega arith) ∙ ap (λ k. ok (pos k)) (regroup i ∙ hit),
      λ j hj q.
          only j hj (sym (regroup j) ∙ number (sym (turn_lem pm t n c j e (omega arith)) ∙ q)),
    )
  where
    regroup : (k : ℕ) → (c + k + 1) % n ≡ (c + 1 + k) % n
    regroup k = ap (λ m. m % n) (omega arith)

    number : {a b : ℕ} → ok (pos a) ≡ ok (pos b) → a ≡ b
    number q = cc
