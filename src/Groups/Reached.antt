-- ===== src/Groups/Reached.antt =====
-- The states that consumers bring the group manager of internal/consumer/group_manager.go to.
use mathlib.Core.List.{Mem}
use native.Mathlib.Nat.{mod-lt}
use go_pub_sub.Prelude.{
  ℕ, ◌+◌, ◌%◌, ◌≤◌, ◌<◌, ◌≡◌, refl, sym, subst, some, List, [], arith, length, get_elem?-lt,
  get_elem?,
}
use go_pub_sub.Prelude.Int.{pos}
use go_pub_sub.Text.{Bytes}
use go_pub_sub.GoMap.{RangeOrder, get}
use go_pub_sub.GoMap.Unique.{IsUnique}
use go_pub_sub.Groups.{
  GroupManager, new_group_manager, members_of, get_assignment, or_nil, join, leave,
}
use go_pub_sub.Groups.Shares.{index_of, get_elem?-index_of}
use go_pub_sub.Groups.Cover.{quota_bounds}
use go_pub_sub.Groups.Roster.{
  index_of_member, member_of_index, index_of-lt, sorted_members-IsDistinct,
}
use go_pub_sub.Groups.Rebalance.{roster, mem-held, length-held}
use go_pub_sub.Groups.Balance.{IsSound, no_members, join-IsSound, leave-IsSound}

-- The states that a sequence of calls leads to, where a topic has the `count` of partitions that
-- callers pass.
pub data Reached (order : RangeOrder) (count : Bytes → ℕ) : GroupManager → Type 0 where
  start : Reached order count new_group_manager
  joined :
      {gm : GroupManager} (g member t : Bytes)
      → Reached order count gm
      → Reached order count (join order gm g member t (pos (count t))).1
  left :
      {gm : GroupManager} (g member t : Bytes)
      → Reached order count gm
      → Reached order count (leave order gm g member t (pos (count t)))

module _ (order : RangeOrder) (count : Bytes → ℕ) where
  -- In every reached state the sets of members are well formed, and for each group and topic the
  -- member with index `i` of `M`, in sorted order, is assigned the partitions `q` with
  -- `q % M = i`, ascending.
  pub Reached-IsSound : (gm : GroupManager) → Reached order count gm → IsSound order count gm
  Reached-IsSound _ start = (
    λ g t. subst IsUnique (sym (nobody g t)) tt,
    λ g t id i e. absurd (no_members order (members_of new_group_manager g t) (nobody g t) id i e),
  )
    where
      nobody : (g t : Bytes) → members_of new_group_manager g t ≡ []
      nobody g t = unfold get in refl
  Reached-IsSound _ (joined {gm} g member t r) =
      join-IsSound order count gm g member t (Reached-IsSound gm r)
  Reached-IsSound _ (left {gm} g member t r) =
      leave-IsSound order count gm g member t (Reached-IsSound gm r)

module _ (order : RangeOrder) (count : Bytes → ℕ) (gm : GroupManager)
    (r : Reached order count gm) where
  -- In every reached state: if a group has a member for a topic, each partition of the topic is
  -- assigned to one member, and to no other.
  pub one_owner :
      (g t some_member : Bytes) (q : ℕ)
      → get some_member (members_of gm g t) ≡ some tt
      → q < count t
      → (id : Bytes) × (get id (members_of gm g t) ≡ some tt)
        × Mem (pos q) (or_nil (get_assignment gm g id t))
        × ((other : Bytes)
            → get other (members_of gm g t) ≡ some tt
            → Mem (pos q) (or_nil (get_assignment gm g other t))
            → other ≡ id)
  one_owner g t some_member q present below =
      let ms = roster order gm g t in
      let (valid, balanced) = Reached-IsSound order count gm r in
      let (k, at_) = index_of_member order (members_of gm g t) some_member present in
      let positive : 0 < length ms = omega (arith, index_of-lt ms some_member k at_) in
      let (id, e) = get_elem?-lt ms (q % length ms) (mod-lt q positive) in
      let index =
        sorted_members-IsDistinct order (members_of gm g t) (valid g t) (q % length ms) id e in
      let holds = mem-held order gm g t (count t) (balanced g t) in
      (
        id,
        member_of_index order _ id _ index,
        (holds id _ q index).1 (below, refl),
        λ other joined_ has.
            let (j, at_j) = index_of_member order (members_of gm g t) other joined_ in
            same_index ms other id j (q % length ms) at_j e ((holds other j q at_j).0 has).1,
      )
    where
      same_index :
          (ms : List Bytes) (a b : Bytes) (j k : ℕ)
          → index_of a ms ≡ some j
          → get_elem? ms k ≡ some b
          → k ≡ j
          → a ≡ b
      same_index ms a b j k ea eb ek = let ea' = get_elem?-index_of a ms j ea in cc

  -- In every reached state: the numbers of partitions that two members of a group have of a topic
  -- differ by one at most.
  pub even_shares :
      (g t a b : Bytes)
      → get a (members_of gm g t) ≡ some tt
      → get b (members_of gm g t) ≡ some tt
      → length (or_nil (get_assignment gm g a t)) ≤ length (or_nil (get_assignment gm g b t)) + 1
  even_shares g t a b in_a in_b =
      let ms = roster order gm g t in
      let balanced = (Reached-IsSound order count gm r).1 g t in
      let (i, at_i) = index_of_member order (members_of gm g t) a in_a in
      let (j, at_j) = index_of_member order (members_of gm g t) b in_b in
      omega (
        arith,
        length-held order gm g t (count t) balanced a i at_i,
        length-held order gm g t (count t) balanced b j at_j,
        quota_bounds (length ms) i (count t) (index_of-lt ms a i at_i),
        quota_bounds (length ms) j (count t) (index_of-lt ms b j at_j),
      )
