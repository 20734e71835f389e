-- ===== src/GoMap/Unique.antt =====
-- A map built by `put` and `delete` has one entry for each of its keys.
use mathlib.Core.List.{Mem, Nodup, Nodup-cons, Nodup-nil, mem-cons, not-mem-nil}
use mathlib.Core.Logic.Or
use mathlib.Core.HLevel.{⊥_prop}
use go_pub_sub.Prelude.{◌≡◌, refl, sym, none, some, [], ◌∷◌, arith, Bool-cases, inl, inr}
use go_pub_sub.Text.{Bytes, bytes_eq, bytes_eq_iff}
use go_pub_sub.GoMap.{GoMap, get, put, delete, keys, get-put, get-delete}

module _ {ℓ} {V : Type ℓ} where
  abbrev pub IsUnique : GoMap V → Type ℓ
  IsUnique [] = Unit
  IsUnique ((k, v) ∷ m) = (get k m ≡ none) × IsUnique m

  pub put-IsUnique : (k : Bytes) (v : V) (m : GoMap V) → IsUnique m → IsUnique (put k v m)
  unfolding put
  put-IsUnique k v [] u = (unfold get in refl, tt)
  put-IsUnique k v ((j, w) ∷ m) u = elim (Bool-cases (bytes_eq j k)) [
    | inl same ↦ rw (same, put) u
    | inr other ↦
        rw (other, put)
          (
            ground (arith, get-put k j v m, bytes_eq_iff k j, bytes_eq_iff j k, u.0),
            put-IsUnique k v m u.1,
          )
  ]

  pub delete-IsUnique : (k : Bytes) (m : GoMap V) → IsUnique m → IsUnique (delete k m)
  unfolding delete
  delete-IsUnique k [] u = tt
  delete-IsUnique k ((j, w) ∷ m) u = elim (Bool-cases (bytes_eq j k)) [
    | inl same ↦ rw (same, delete) (delete-IsUnique k m u.1)
    | inr other ↦
        rw (other, delete)
          (
            ground (arith, get-delete k j m, bytes_eq_iff k j, bytes_eq_iff j k, u.0),
            delete-IsUnique k m u.1,
          )
  ]

  pub not-mem_of_none : (k : Bytes) (m : GoMap V) → get k m ≡ none → ¬ Mem k (keys m)
  unfolding get
  not-mem_of_none k [] e h = not-mem-nil h
  not-mem_of_none k ((j, v) ∷ m) e h =
      Or.elim ⊥_prop (mem-cons.0 h) (λ q. ground (arith, bytes_eq_iff j k))
        (not-mem_of_none k m (ground (arith)))

  pub mem_of_some : (k : Bytes) (m : GoMap V) (v : V) → get k m ≡ some v → Mem k (keys m)
  unfolding get
  mem_of_some k [] v e = absurd (cc e)
  mem_of_some k ((j, w) ∷ m) v e = elim (Bool-cases (bytes_eq j k)) [
    | inl same ↦ mem-cons.1 (Or.inl (sym ((bytes_eq_iff j k).0 same)))
    | inr other ↦ mem-cons.1 (Or.inr (mem_of_some k m v (ground arith)))
  ]

  pub keys-Nodup : (m : GoMap V) → IsUnique m → Nodup (keys m)
  keys-Nodup [] u = Nodup-nil
  keys-Nodup ((k, v) ∷ m) u = Nodup-cons.1 (not-mem_of_none k m u.0, keys-Nodup m u.1)
