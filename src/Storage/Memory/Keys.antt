-- ===== src/Storage/Memory/Keys.antt =====
-- The keys of the maps in internal/storage/memory_store.go: `tkey` and `ckey`.
use go_pub_sub.Prelude.{ℕ, ◌≡◌, refl, ap₂, [], ◌∷◌, ◌++◌, append_assoc, arith}
use go_pub_sub.Prelude.Int.{ℤ, eq_ℤ_iff}
use go_pub_sub.Storage.{same_log, same_commit}
use go_pub_sub.Text.{Bytes, bytes_eq, bytes_eq_iff}
use go_pub_sub.Text.Decimal.{decimal, decimal-Lacks, decimal_injective, split_at_last, Lacks}

-- fmt.Sprintf("%s:%d", topic, partition)
unfoldable pub tkey : Bytes → ℤ → Bytes
tkey topic partition = topic ++ b':' ∷ decimal partition

-- fmt.Sprintf("%s:%s:%d", group, topic, partition)
unfoldable pub ckey : Bytes → Bytes → ℤ → Bytes
ckey group topic partition = group ++ b':' ∷ (topic ++ b':' ∷ decimal partition)

-- Different partitions have different keys, whatever bytes the topics hold.
pub tkey_injective : (t t' : Bytes) (p p' : ℤ) → tkey t p ≡ tkey t' p' → (t ≡ t') × (p ≡ p')
unfolding tkey
tkey_injective t t' p p' e =
    let (topics, prints) =
      split_at_last b':' t t' (decimal p) (decimal p') (decimal-Lacks p) (decimal-Lacks p') e in
    (topics, decimal_injective p p' prints)

pub tkey_eq : (t t' : Bytes) (p p' : ℤ) → bytes_eq (tkey t p) (tkey t' p') ≡ same_log t p t' p'
tkey_eq t t' p p' = ground (
  arith,
  bytes_eq_iff (tkey t p) (tkey t' p'),
  bytes_eq_iff t t',
  eq_ℤ_iff p p',
  tkey_injective t t' p p',
  λ (e : t ≡ t') (f : p ≡ p'). ap₂ tkey e f,
)

-- The first colon ends a group name that holds none.
split_at_first :
    (b : ℕ) (xs ys d e : Bytes)
    → Lacks b xs
    → Lacks b ys
    → xs ++ b ∷ d ≡ ys ++ b ∷ e
    → (xs ≡ ys) × (d ≡ e)
split_at_first b [] [] d e lx ly p = (refl, cc)
split_at_first b [] (y ∷ ys) d e lx ly p = absurd (ly.0 (cc p))
split_at_first b (x ∷ xs) [] d e lx ly p = absurd (lx.0 (cc p))
split_at_first b (x ∷ xs) (y ∷ ys) d e lx ly p =
    let (q, r) = split_at_first b xs ys d e lx.1 ly.1 (cc p) in (cc (q, p), r)

-- Different triples have different keys if the groups hold no colon.
pub ckey_injective :
    (g g' t t' : Bytes) (p p' : ℤ)
    → Lacks b':' g
    → Lacks b':' g'
    → ckey g t p ≡ ckey g' t' p'
    → (g ≡ g') × (t ≡ t') × (p ≡ p')
unfolding ckey
ckey_injective g g' t t' p p' l l' e =
    let (groups, rest) = split_at_first b':' g g' (tkey t p) (tkey t' p') l l' (unfold tkey in e) in
    let (topics, partitions) = tkey_injective t t' p p' rest in (groups, topics, partitions)

-- With a colon in a group or a topic, two triples can share their key.
pub ckey_collision : (g a t : Bytes) (p : ℤ) → ckey (g ++ b':' ∷ a) t p ≡ ckey g (a ++ b':' ∷ t) p
unfolding ckey
ckey_collision g a t p = simp append_assoc

ckey_cong : {g g' t t' : Bytes} {p p' : ℤ} → g ≡ g' → t ≡ t' → p ≡ p' → ckey g t p ≡ ckey g' t' p'
ckey_cong d e f = λ i. ckey (d i) (e i) (f i)

pub ckey_eq :
    (g g' t t' : Bytes) (p p' : ℤ)
    → Lacks b':' g
    → Lacks b':' g'
    → bytes_eq (ckey g t p) (ckey g' t' p') ≡ same_commit g t p g' t' p'
ckey_eq g g' t t' p p' l l' = ground (
  arith,
  bytes_eq_iff (ckey g t p) (ckey g' t' p'),
  bytes_eq_iff g g',
  bytes_eq_iff t t',
  eq_ℤ_iff p p',
  ckey_injective g g' t t' p p' l l',
  λ (d : g ≡ g') (e : t ≡ t') (f : p ≡ p'). ckey_cong d e f,
)
