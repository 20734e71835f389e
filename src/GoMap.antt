-- ===== src/GoMap.antt =====
-- Go's `map[string]V`: an association list with one entry for each key. What the program sees of
-- it are the laws below; the order of the entries shows only where the program ranges over a map,
-- and there the runtime's choice is a parameter (`RangeOrder`).
pub mod Unique
use mathlib.Core.List.{Perm}
use mathlib.Core.List.Perm
use go_pub_sub.Prelude.{◌≡◌, refl, Option, none, some, List, [], ◌∷◌, map, arith, if◌then◌else◌}
use go_pub_sub.Text.{Bytes, bytes_eq, bytes_eq_iff, bytes_eq_refl}

abbrev pub GoMap {ℓ} : Type ℓ → Type ℓ
GoMap V = List (Bytes × V)

module _ {ℓ} {V : Type ℓ} where
  -- v, ok := m[k]
  unfoldable pub get : Bytes → GoMap V → Option V
  get k [] = none
  get k ((j, v) ∷ m) = if bytes_eq j k then some v else get k m

  -- m[k] = v
  unfoldable pub put : Bytes → V → GoMap V → GoMap V
  put k v [] = (k, v) ∷ []
  put k v ((j, w) ∷ m) = if bytes_eq j k then (j, v) ∷ m else (j, w) ∷ put k v m

  -- delete(m, k)
  unfoldable pub delete : Bytes → GoMap V → GoMap V
  delete k [] = []
  delete k ((j, w) ∷ m) = let rest = delete k m in if bytes_eq j k then rest else (j, w) ∷ rest

  abbrev pub keys : GoMap V → List Bytes
  keys = map (λ e. e.0)

  pub get-put :
      (k j : Bytes) (v : V) (m : GoMap V)
      → get j (put k v m) ≡ (if bytes_eq k j then some v else get j m)
  unfolding get put
  get-put k j v [] = refl
  get-put k j v ((i, w) ∷ m) =
      ground (arith, bytes_eq_iff k j, bytes_eq_iff i k, bytes_eq_iff i j, get-put k j v m)

  pub get-delete :
      (k j : Bytes) (m : GoMap V) → get j (delete k m) ≡ (if bytes_eq k j then none else get j m)
  unfolding get delete
  get-delete k j [] = ground arith
  get-delete k j ((i, w) ∷ m) =
      ground (arith, bytes_eq_iff k j, bytes_eq_iff i k, bytes_eq_iff i j, get-delete k j m)

  pub get-put_self : (k : Bytes) (v : V) (m : GoMap V) → get k (put k v m) ≡ some v
  get-put_self k v m = rw (get-put k k v m, bytes_eq_refl k)

pub ruleset map_laws = (get-put, get-delete, bytes_eq_refl)

-- The order in which `for k, v := range m` visits the entries. Go leaves it open; all that the
-- program can rely on is that each entry is visited once.
pub record RangeOrder : Type 1 where
  pub range : (V : Type 0) → GoMap V → GoMap V
  pub range-perm : (V : Type 0) (m : GoMap V) → Perm (range V m) m

-- The order of insertion is one that the runtime may choose.
abbrev pub in_order : RangeOrder
in_order = record { range = λ V m. m; range-perm = λ V m. Perm.refl m }
