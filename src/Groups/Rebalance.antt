-- ===== src/Groups/Rebalance.antt =====
-- What `rebalanceLocked` of internal/consumer/group_manager.go leaves in the assignments, and what
-- that says of the partitions of a topic: each has one consumer in the group, and the consumers
-- have even shares.
use mathlib.Core.List.{Mem}
use go_pub_sub.Prelude.{
  ℕ, ◌%◌, ◌<◌, ◌≡◌, refl, sym, ap, ◌∙◌, subst, Option, none, some, List, length, if◌then◌else◌,
  Bool-cases, inl, inr, ◌↔◌,
}
use go_pub_sub.Prelude.Int.{ℤ, pos}
use go_pub_sub.Text.{Bytes}
use go_pub_sub.GoMap.{GoMap, RangeOrder, get}
use go_pub_sub.GoMap.Unique.{IsUnique}
use go_pub_sub.Groups.{
  GroupManager, Assignments, sorted_members, members_of, table_of, get_assignment, rebalance,
  assign, or_nil, or_empty,
}
use go_pub_sub.Groups.Shares.{shares, index_of, assigned, get-assign}
use go_pub_sub.Groups.Cover.{mem-shares, quota, length-shares}
use go_pub_sub.Groups.Nested.{same_pair, at-write_pair}
use go_pub_sub.Groups.Roster.{sorted_members-IsDistinct, index_of-lt}

-- the member ids of a group and topic, in the order in which partitions are dealt out
abbrev pub roster : RangeOrder → GroupManager → Bytes → Bytes → List Bytes
roster order gm g t = sorted_members order (members_of gm g t)

pub get_assignment_lem :
    (gm : GroupManager) (g id t : Bytes) → get_assignment gm g id t ≡ get id (table_of gm g t)
unfolding get_assignment get
get_assignment_lem gm g id t = in_group (get g gm.assignments)
  where
    in_topic :
        (o : Option Assignments)
        → elim o [ none ↦ none | some table ↦ get id table ] ≡ get id (or_empty o)
    in_topic none = refl
    in_topic (some table) = refl

    in_group :
        (o : Option (GoMap Assignments))
        → elim o [
          | none ↦ none
          | some topics ↦ elim (get t topics) [ none ↦ none | some table ↦ get id table ]
        ]
          ≡ get id (or_empty (get t (or_empty o)))
    in_group none = refl
    in_group (some topics) = in_topic (get t topics)

-- The partitions of a topic with `n` of them are dealt out to the members of a group.
abbrev pub IsBalanced : RangeOrder → GroupManager → Bytes → Bytes → ℕ → Type 0
IsBalanced order gm g t n =
    (id : Bytes) (i : ℕ)
    → index_of id (roster order gm g t) ≡ some i
    → get_assignment gm g id t ≡ some (shares (length (roster order gm g t)) i n 0)

pub get_assignment-rebalance :
    (order : RangeOrder) (gm : GroupManager) (g t : Bytes) (n : ℕ) (id g' t' : Bytes)
    → IsUnique (members_of gm g t)
    → get_assignment (rebalance order gm g t (pos n)) g' id t' ≡ (
        if same_pair g t g' t'
        then assigned
            (length (roster order gm g t))
            n
            (index_of id (roster order gm g t))
            (get_assignment gm g id t)
        else get_assignment gm g' id t')
unfolding rebalance
get_assignment-rebalance order gm g t n id g' t' u =
    let members = roster order gm g t in
    let deal = assign members (pos n) in
    get_assignment_lem (rebalance order gm g t (pos n)) g' id t'
    ∙ ap (get id) (at-write_pair g t g' t' deal gm.assignments)
    ∙ elim (Bool-cases (same_pair g t g' t')) [
      | inl same ↦ simp same (
          get-assign members n id (table_of gm g t) (sorted_members-IsDistinct order _ u)
          ∙ ap (assigned (length members) n (index_of id members))
              (sym (get_assignment_lem gm g id t)))
      | inr other ↦ simp other (sym (get_assignment_lem gm g' id t'))
    ]

module _ (order : RangeOrder) (gm : GroupManager) (g t : Bytes) (n : ℕ)
    (balanced : IsBalanced order gm g t n) where
  -- what a consumer holds
  abbrev pub held : Bytes → List ℤ
  held id = or_nil (get_assignment gm g id t)

  held_lem :
      (id : Bytes) (i : ℕ)
      → index_of id (roster order gm g t) ≡ some i
      → held id ≡ shares (length (roster order gm g t)) i n 0
  held_lem id i e = ap or_nil (balanced id i e)

  pub mem-held :
      (id : Bytes) (i q : ℕ)
      → index_of id (roster order gm g t) ≡ some i
      → Mem (pos q) (held id) ↔ ((q < n) × (q % length (roster order gm g t) ≡ i))
  mem-held id i q e =
      subst (λ l. Mem (pos q) l ↔ ((q < n) × (q % length (roster order gm g t) ≡ i)))
        (sym (held_lem id i e)) (mem-shares _ i n q)

  pub length-held :
      (id : Bytes) (i : ℕ)
      → index_of id (roster order gm g t) ≡ some i
      → length (held id) ≡ quota (length (roster order gm g t)) i n
  length-held id i e = ap length (held_lem id i e) ∙ length-shares _ i n (index_of-lt _ id i e)
