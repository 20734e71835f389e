-- ===== src/Groups.antt =====
-- internal/consumer/group_manager.go: `GroupManager`. A lock makes each method one step; the inner
-- maps are values here, so a write to one is a write of the whole path to it. A set of member ids
-- is a map to the unit type, and a nil map reads as the empty one.
pub mod Shares
pub mod Cover
pub mod Nested
pub mod Roster
pub mod Rebalance
pub mod Membership
pub mod Balance
pub mod Reached
pub mod Calls
pub mod Stale
use go_pub_sub.Prelude.{
  ℕ, zero, suc, ◌+◌, ◌%◌, Bool, true, false, ◌||◌, Option, none, some, List, [], ◌∷◌, ◌++◌, length,
  get_elem?, if◌then◌else◌,
}
use go_pub_sub.Prelude.Int.{ℤ, pos, pos_part, leb_ℤ}
use go_pub_sub.Text.{Bytes, is_empty}
use go_pub_sub.Text.Sort.{sort_strings}
use go_pub_sub.GoMap.{GoMap, RangeOrder, get, put, delete, keys}
use go_pub_sub.Go.{Error, Result, ok, err, member_required, partitions_not_positive}
use go_pub_sub.Storage.{LogStorage}

abbrev pub Members : Type 0
Members = GoMap (Unit {0})

abbrev pub Assignments : Type 0
Assignments = GoMap (List ℤ)

pub record GroupManager : Type 0 where
  pub groups : GoMap (GoMap Members)
  pub assignments : GoMap (GoMap Assignments)

abbrev pub new_group_manager : GroupManager
new_group_manager = record { groups = []; assignments = [] }

module _ {V : Type 0} where
  abbrev pub or_empty : Option (GoMap V) → GoMap V
  or_empty none = []
  or_empty (some m) = m

  -- if _, ok := m[k]; !ok { m[k] = make(...) }
  unfoldable pub ensure : Bytes → GoMap (GoMap V) → GoMap (GoMap V)
  ensure k m = elim (get k m) [ some _ ↦ m | none ↦ put k [] m ]

  -- a write to the map m[k], which is there
  abbrev pub modify : Bytes → (GoMap V → GoMap V) → GoMap (GoMap V) → GoMap (GoMap V)
  modify k f m = put k (f (or_empty (get k m))) m

abbrev pub or_nil : Option (List ℤ) → List ℤ
or_nil none = []
or_nil (some l) = l

-- groups[group][topic]
abbrev pub members_of : GroupManager → Bytes → Bytes → Members
members_of gm group topic = or_empty (get topic (or_empty (get group gm.groups)))

-- assignments[group][topic]
abbrev pub table_of : GroupManager → Bytes → Bytes → Assignments
table_of gm group topic = or_empty (get topic (or_empty (get group gm.assignments)))

-- for _, id := range members { assignments[group][topic][id] = nil }
unfoldable pub reset : List Bytes → Assignments → Assignments
reset [] table = table
reset (id ∷ members) table = reset members (put id [] table)

-- members[idx] = append(members[idx], p); an index out of range would panic, and is none
unfoldable pub give : ℕ → Option Bytes → Assignments → Assignments
give p none table = table
give p (some member) table = put member (or_nil (get member table) ++ pos p ∷ []) table

-- for p := 0; p < partitions; p++, with `n` rounds left
unfoldable pub assign_loop : ℕ → ℕ → List Bytes → Assignments → Assignments
assign_loop zero p members table = table
assign_loop (suc n) p members table =
    assign_loop n (p + 1) members (give p (get_elem? members (p % length members)) table)

-- the new assignments of a group and topic with the given members, in order
unfoldable pub assign : List Bytes → ℤ → Assignments → Assignments
assign [] partitions table = table
assign (m ∷ ms) partitions table =
    assign_loop (pos_part partitions) 0 (m ∷ ms) (reset (m ∷ ms) table)

-- if len(m[k]) == 0 { delete(m, k) }, where `v` is m[k]
unfoldable pub put_or_drop : {V : Type 0} → Bytes → GoMap V → GoMap (GoMap V) → GoMap (GoMap V)
put_or_drop k [] m = delete k m
put_or_drop k v m = put k v m

-- groups[group][topic][member] = struct{}{}, with the maps that it needs
unfoldable pub add_member : GroupManager → Bytes → Bytes → Bytes → GroupManager
add_member gm group member topic = record gm {
  groups =
      modify group (λ topics. modify topic (put member tt) (ensure topic topics))
        (ensure group gm.groups);
}

module _ (order : RangeOrder) where
  -- the ids in a set of members, in the order of `sort.Strings`
  abbrev pub sorted_members : Members → List Bytes
  sorted_members members = sort_strings (keys (order.range Unit members))

  unfoldable pub rebalance : GroupManager → Bytes → Bytes → ℤ → GroupManager
  rebalance gm group topic partitions =
      let members = sorted_members (members_of gm group topic) in
      record gm {
        assignments =
            modify group (λ topics. modify topic (assign members partitions) (ensure topic topics))
              (ensure group gm.assignments);
      }

  unfoldable pub join : GroupManager → Bytes → Bytes → Bytes → ℤ → Result (List ℤ) × GroupManager
  join gm group member topic partitions =
      if is_empty group || is_empty member || is_empty topic
      then (err member_required, gm)
      else if leb_ℤ partitions (pos 0)
      then (err partitions_not_positive, gm)
      else let gm' = rebalance (add_member gm group member topic) group topic partitions in
        (ok (or_nil (get member (table_of gm' group topic))), gm')

  unfoldable pub leave_topics : GroupManager → Bytes → Bytes → ℤ → GoMap Members → GroupManager
  leave_topics gm group topic partitions [] = record {
    groups = delete group gm.groups;
    assignments = delete group gm.assignments;
  }
  leave_topics gm group topic partitions topics =
      rebalance (record gm { groups = put group topics gm.groups }) group topic partitions

  unfoldable pub leave : GroupManager → Bytes → Bytes → Bytes → ℤ → GroupManager
  leave gm group member topic partitions =
      if is_empty group || is_empty member || is_empty topic
      then gm
      else elim (get group gm.groups) [
        | none ↦ gm
        | some topics ↦ elim (get topic topics) [
          | none ↦ gm
          | some members ↦
              leave_topics gm group topic partitions
                (put_or_drop topic (delete member members) topics)
        ]
      ]

-- nil, for a member with no assignment, is none
unfoldable pub get_assignment : GroupManager → Bytes → Bytes → Bytes → Option (List ℤ)
get_assignment gm group member topic = elim (get group gm.assignments) [
  | none ↦ none
  | some topics ↦ elim (get topic topics) [ none ↦ none | some table ↦ get member table ]
]

module _ (L : LogStorage) where
  abbrev pub commit_offset : L.State → Bytes → Bytes → ℤ → ℤ → Option Error × L.State
  commit_offset = L.commit_offset

  abbrev pub get_committed_offset : L.State → Bytes → Bytes → ℤ → ℤ × Option Error
  get_committed_offset = L.get_committed_offset
