-- ===== src/Groups/Roster.antt =====
-- The sorted list of a group's members in internal/consumer/group_manager.go: it holds each member
-- once, whatever the order in which the runtime ranges over the set.
use mathlib.Core.List.{Mem, Nodup, Nodup-cons, mem-cons, not-mem-nil, Perm}
use mathlib.Core.List.Perm
use mathlib.Core.Logic.Or
use mathlib.Core.HLevel.{⊥_prop}
use go_pub_sub.Prelude.{
  ℕ, zero, suc, ◌<◌, ◌≡◌, ◌≢◌, sym, subst, none, some, List, [], ◌∷◌, arith, length, get_elem?,
  Option-cases, inl, inr,
}
use go_pub_sub.Text.{Bytes, bytes_eq_iff}
use go_pub_sub.Text.Sort.{sort_strings-perm, sort_strings_of_perm}
use go_pub_sub.GoMap.{RangeOrder, get, keys}
use go_pub_sub.GoMap.Unique.{IsUnique, keys-Nodup, mem_of_some, not-mem_of_none}
use go_pub_sub.Groups.{Members, sorted_members}
use go_pub_sub.Groups.Shares.{index_of, IsDistinct, get_elem?-index_of}

mem-get_elem? : (ms : List Bytes) (i : ℕ) (id : Bytes) → get_elem? ms i ≡ some id → Mem id ms
mem-get_elem? [] i id e = absurd (cc e)
mem-get_elem? (m ∷ ms) zero id e = let same : m ≡ id = cc e in mem-cons.1 (Or.inl (sym same))
mem-get_elem? (m ∷ ms) (suc i) id e = mem-cons.1 (Or.inr (mem-get_elem? ms i id e))

Nodup-IsDistinct : (ms : List Bytes) → Nodup ms → IsDistinct ms
Nodup-IsDistinct [] d i id e = absurd (cc e)
Nodup-IsDistinct (m ∷ ms) d zero id e = ground (arith, bytes_eq_iff m id)
Nodup-IsDistinct (m ∷ ms) d (suc i) id e =
    let found = mem-get_elem? ms i id e in
    let other : m ≢ id = λ same. (Nodup-cons.0 d).0 (subst (λ k. Mem k ms) (sym same) found) in
    ground (arith, bytes_eq_iff m id, Nodup-IsDistinct ms (Nodup-cons.0 d).1 i id e)

pub index_of-lt : (ms : List Bytes) (id : Bytes) (i : ℕ) → index_of id ms ≡ some i → i < length ms
index_of-lt [] id i e = absurd (cc e)
index_of-lt (m ∷ ms) id zero e = omega arith
index_of-lt (m ∷ ms) id (suc i) e = ground (arith, index_of-lt ms id i)

index_of_mem : (ms : List Bytes) (id : Bytes) → Mem id ms → (i : ℕ) × (index_of id ms ≡ some i)
index_of_mem ms id h = elim (Option-cases (index_of id ms)) [
  | inl missing ↦ absurd (not_there ms missing h)
  | inr found ↦ found
]
  where
    not_there : (ns : List Bytes) → index_of id ns ≡ none → ¬ Mem id ns
    not_there [] e q = not-mem-nil q
    not_there (n ∷ ns) e q =
        Or.elim ⊥_prop (mem-cons.0 q) (λ same. ground (arith, bytes_eq_iff n id))
          (not_there ns (ground arith))

pub mem-index_of : (ms : List Bytes) (id : Bytes) (i : ℕ) → index_of id ms ≡ some i → Mem id ms
mem-index_of ms id i e = mem-get_elem? ms i id (get_elem?-index_of id ms i e)

module _ (order : RangeOrder) (members : Members) where
  sorted_members-perm : Perm (sorted_members order members) (keys members)
  sorted_members-perm =
      Perm.trans (sort_strings-perm (keys (order.range Unit members)))
        (Perm.map (λ e. e.0) (order.range-perm Unit members))

  pub sorted_members-IsDistinct : IsUnique members → IsDistinct (sorted_members order members)
  sorted_members-IsDistinct u =
      Nodup-IsDistinct _ (Perm.nodup (Perm.symm sorted_members-perm) (keys-Nodup members u))

  -- A member of the set has an index in the list.
  pub index_of_member :
      (id : Bytes)
      → get id members ≡ some tt
      → (i : ℕ) × (index_of id (sorted_members order members) ≡ some i)
  index_of_member id e =
      index_of_mem _ id ((Perm.mem_iff sorted_members-perm).1 (mem_of_some id members tt e))

  -- Only a member has one.
  pub member_of_index :
      (id : Bytes) (i : ℕ)
      → index_of id (sorted_members order members) ≡ some i
      → get id members ≡ some tt
  member_of_index id i e = elim (Option-cases (get id members)) [
    | inl missing ↦ absurd (
        not-mem_of_none id members missing
          ((Perm.mem_iff sorted_members-perm).0 (mem-index_of _ id i e)))
    | inr (_, found) ↦ found
  ]

-- The runtime's order of the range does not show.
pub sorted_members_order :
    (o o' : RangeOrder) (members : Members) → sorted_members o members ≡ sorted_members o' members
sorted_members_order o o' members = sort_strings_of_perm (
    Perm.map (λ e. e.0)
      (Perm.trans (o.range-perm Unit members) (Perm.symm (o'.range-perm Unit members))))
