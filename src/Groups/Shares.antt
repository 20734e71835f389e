-- ===== src/Groups/Shares.antt =====
-- The rule `partition i -> members[i % M]` of internal/consumer/group_manager.go.

use native.Mathlib.Nat.{mod-lt}
use go_pub_sub.Prelude.{
  ℕ, zero, suc, ◌+◌, ◌%◌, ◌<◌, ◌≡◌, refl, sym, ap, ◌∙◌, true, false, Option, none, some, List, [],
  ◌∷◌, ◌++◌, append_assoc, arith, length, get_elem?, get_elem?-lt, if◌then◌else◌, ◌==◌, Bool,
  Bool-cases, Option-cases, inl, inr, append-nil, ==_iff,
}
use go_pub_sub.Prelude.Int.{ℤ, pos}
use go_pub_sub.Text.{Bytes, bytes_eq, bytes_eq_iff}
use go_pub_sub.GoMap.{get, put, get-put}
use go_pub_sub.Groups.{Assignments, or_nil, give, assign_loop, reset, assign}

-- the partitions from `p` on, `n` of them, that fall to the member with index `i` of `M`
abbrev pub shares : ℕ → ℕ → ℕ → ℕ → List ℤ
shares M i zero p = []
shares M i (suc n) p = if p % M == i then pos p ∷ shares M i n (p + 1) else shares M i n (p + 1)

-- the index of a member in the sorted list
abbrev pub index_of : Bytes → List Bytes → Option ℕ
index_of id [] = none
index_of id (m ∷ ms) =
    if bytes_eq m id then some 0 else elim (index_of id ms) [ none ↦ none | some i ↦ some (suc i) ]

-- Every member stands once in the list.
abbrev pub IsDistinct : List Bytes → Type 0
IsDistinct ms = (i : ℕ) (id : Bytes) → get_elem? ms i ≡ some id → index_of id ms ≡ some i

pub get_elem?-index_of :
    (id : Bytes) (ms : List Bytes) (i : ℕ) → index_of id ms ≡ some i → get_elem? ms i ≡ some id
get_elem?-index_of id [] i e = cc
get_elem?-index_of id (m ∷ ms) zero e = ground (arith, bytes_eq_iff m id)
get_elem?-index_of id (m ∷ ms) (suc i) e = ground (arith, get_elem?-index_of id ms i)

module _ (ms : List Bytes) (distinct : IsDistinct ms) (positive : 0 < length ms) where
  -- whom round `p` gives its partition to
  owner :
      (p : ℕ)
      → (id : Bytes) × (get_elem? ms (p % length ms) ≡ some id)
        × (index_of id ms ≡ some (p % length ms))
  owner p =
      let (id, e) = get_elem?-lt ms (p % length ms) (mod-lt p positive) in
      (id, e, distinct (p % length ms) id e)

  -- It is the member with index `i` exactly if `p` falls to `i`.
  owner_iff :
      (p i : ℕ) (id : Bytes)
      → index_of id ms ≡ some i
      → bytes_eq (owner p).0 id ≡ (p % length ms == i)
  owner_iff p i id at_ =
      let (o, found, index) = owner p in
      elim (Bool-cases (bytes_eq o id)) [
        | inl same ↦
            let e : some (p % length ms) ≡ some i =
              sym index ∙ ap (λ x. index_of x ms) ((bytes_eq_iff o id).0 same) ∙ at_ in
            ground arith
        | inr other ↦
            ground
              (arith, bytes_eq_iff o id, ==_iff (p % length ms) i, get_elem?-index_of id ms i at_)
      ]

  get-give :
      (p i : ℕ) (id : Bytes) (old : List ℤ) (table : Assignments)
      → index_of id ms ≡ some i
      → get id table ≡ some old
      → get id (give p (get_elem? ms (p % length ms)) table)
        ≡ some (if p % length ms == i then old ++ pos p ∷ [] else old)
  unfolding give
  get-give p i id old table at_ e =
      let (o, found, index) = owner p in
      rw (found, give)
        (get-put o id (or_nil (get o table) ++ pos p ∷ []) table
          ∙ ground (arith, owner_iff p i id at_, bytes_eq_iff o id))

  -- A member of the list gains the partitions that fall to its index.
  get-assign_loop :
      (n p i : ℕ) (id : Bytes) (old : List ℤ) (table : Assignments)
      → index_of id ms ≡ some i
      → get id table ≡ some old
      → get id (assign_loop n p ms table) ≡ some (old ++ shares (length ms) i n p)
  unfolding assign_loop
  get-assign_loop zero p i id old table at_ e = e ∙ ap some (sym (append-nil old))
  get-assign_loop (suc n) p i id old table at_ e =
      get-assign_loop n (p + 1) i id _ _ at_ (get-give p i id old table at_ e)
      ∙ ap some (regroup (p % length ms == i))
    where
      regroup :
          (b : Bool)
          → (if b then old ++ pos p ∷ [] else old) ++ shares (length ms) i n (p + 1)
            ≡ old
              ++ (if b
                  then pos p ∷ shares (length ms) i n (p + 1)
                  else shares (length ms) i n (p + 1))
      regroup true = append_assoc old (pos p ∷ []) _
      regroup false = refl

  -- Nobody else's assignment changes.
  get-assign_loop_other :
      (n p : ℕ) (id : Bytes) (table : Assignments)
      → index_of id ms ≡ none
      → get id (assign_loop n p ms table) ≡ get id table
  unfolding assign_loop give
  get-assign_loop_other zero p id table at_ = refl
  get-assign_loop_other (suc n) p id table at_ =
      let (o, found, index) = owner p in
      get-assign_loop_other n (p + 1) id _ at_
      ∙ rw (found, give)
          (get-put o id (or_nil (get o table) ++ pos p ∷ []) table
            ∙ ground (arith, bytes_eq_iff o id, ap (λ x. index_of x ms)))

abbrev cleared : Option ℕ → Option (List ℤ) → Option (List ℤ)
cleared none old = old
cleared (some i) old = some []

get-reset :
    (ms : List Bytes) (id : Bytes) (table : Assignments)
    → get id (reset ms table) ≡ cleared (index_of id ms) (get id table)
unfolding reset
get-reset [] id table = refl
get-reset (m ∷ ms) id table =
    get-reset ms id (put m [] table) ∙ ground (arith, get-put m id [] table)

-- what the assignment `old` of the member with an index, or of any other id, becomes
abbrev pub assigned : ℕ → ℕ → Option ℕ → Option (List ℤ) → Option (List ℤ)
assigned M n none old = old
assigned M n (some i) old = some (shares M i n 0)

-- The loops of `rebalanceLocked`, for distinct members and `n` partitions: the member with index
-- `i` of `M` is assigned the partitions that are `i` modulo `M`, in order; all other entries stay.
pub get-assign :
    (ms : List Bytes) (n : ℕ) (id : Bytes) (table : Assignments)
    → IsDistinct ms
    → get id (assign ms (pos n) table) ≡ assigned (length ms) n (index_of id ms) (get id table)
unfolding assign
get-assign [] n id table d = refl
get-assign (m ∷ ms) n id table d =
    let start = reset (m ∷ ms) table in
    let outcome = λ (o : Option ℕ). assigned (length (m ∷ ms)) n o (get id table) in
    elim (Option-cases (index_of id (m ∷ ms))) [
      | inl e ↦
          get-assign_loop_other (m ∷ ms) d (omega arith) n 0 id start e
          ∙ get-reset (m ∷ ms) id table
          ∙ ap (λ o. cleared o (get id table)) e
          ∙ ap outcome (sym e)
      | inr (i, e) ↦
          get-assign_loop (m ∷ ms) d (omega arith) n 0 i id [] start e
            (get-reset (m ∷ ms) id table ∙ ap (λ o. cleared o (get id table)) e)
          ∙ ap outcome (sym e)
    ]
