-- ===== src/Groups/Calls.antt =====
-- One call of `Join` of internal/consumer/group_manager.go: what it returns and what it changes.
use go_pub_sub.Prelude.{
  ℕ, ◌<◌, ◌≡◌, refl, sym, ap, ◌∙◌, fun_ext, false, ◌||◌, none, some, arith, if◌then◌else◌,
}
use go_pub_sub.Prelude.Int.{ℤ, pos, leb_ℤ}
use go_pub_sub.Text.{Bytes, is_empty}
use go_pub_sub.Go.{Result, ok}
use go_pub_sub.GoMap.{GoMap, RangeOrder, put, get, delete}
use go_pub_sub.GoMap.Unique.{IsUnique, put-IsUnique}
use go_pub_sub.Groups.{
  GroupManager, Members, members_of, table_of, put_or_drop, or_nil, get_assignment, add_member,
  rebalance, leave_topics, leave, join, modify, assign, ensure,
}
use go_pub_sub.Groups.Nested.{same_pair, same_pair_refl}
use go_pub_sub.Groups.Roster.{sorted_members_order}
use go_pub_sub.Groups.Rebalance.{IsBalanced, get_assignment_lem, get_assignment-rebalance}
use go_pub_sub.Groups.Membership.{members_of-add_member, members_of-rebalance}
use go_pub_sub.Groups.Balance.{rebalance-IsBalanced}
use go_pub_sub.Prelude.{subst, List, [], ◌∷◌}

-- What a call of `join` that is accepted returns as `r`, and leads to as `gm'`.
pub record IsJoined (order : RangeOrder) (gm : GroupManager) (g member t : Bytes) (n : ℕ)
    (r : Result (List ℤ)) (gm' : GroupManager) : Type 0 where
  pub result : r ≡ ok (or_nil (get_assignment gm' g member t))
  pub members :
      (g' t' : Bytes)
      → members_of gm' g' t'
        ≡ (if same_pair g t g' t' then put member tt (members_of gm g t) else members_of gm g' t')
  pub dealt : IsBalanced order gm' g t n
  pub others :
      (g' id t' : Bytes)
      → same_pair g t g' t' ≡ false
      → get_assignment gm' g' id t' ≡ get_assignment gm g' id t'

module _ (order : RangeOrder) (gm : GroupManager) (g member t : Bytes) (n : ℕ) where
  joined-IsUnique :
      IsUnique (members_of gm g t) → IsUnique (members_of (add_member gm g member t) g t)
  joined-IsUnique u =
      subst IsUnique
        (sym (members_of-add_member gm g member t g t ∙ simp (same_pair_refl g t) refl))
        (put-IsUnique member tt (members_of gm g t) u)

  add_member_assignment :
      (g' id t' : Bytes)
      → get_assignment (add_member gm g member t) g' id t' ≡ get_assignment gm g' id t'
  unfolding add_member get_assignment
  add_member_assignment g' id t' = refl

  -- Where each member of the group and topic is in its set once, `join` with names that are not
  -- empty and a positive number of partitions returns the caller's new assignment; it adds the
  -- caller to the members of its group and topic, deals all partitions of the topic out to them,
  -- and changes no assignment of another group or topic.
  pub join-IsJoined :
      IsUnique (members_of gm g t)
      → is_empty g ≡ false
      → is_empty member ≡ false
      → is_empty t ≡ false
      → 0 < n
      → IsJoined order gm g member t n
          (join order gm g member t (pos n)).0
          (join order gm g member t (pos n)).1
  unfolding join
  join-IsJoined u eg em et positive =
      let enough : leb_ℤ (pos n) (pos 0) ≡ false = ground arith in
      simp (eg, em, et, enough) accepted
    where
      gm' : GroupManager
      gm' = rebalance order (add_member gm g member t) g t (pos n)

      accepted : IsJoined order gm g member t n (ok (or_nil (get member (table_of gm' g t)))) gm'
      accepted = record {
        result = ap (λ o. ok (or_nil o)) (sym (get_assignment_lem gm' g member t));
        members = λ g' t'.
            members_of-rebalance order (add_member gm g member t) g t n g' t'
            ∙ members_of-add_member gm g member t g' t';
        dealt =
            rebalance-IsBalanced order (λ _. n) (add_member gm g member t) g t n
              (joined-IsUnique u);
        others = λ g' id t' other.
            get_assignment-rebalance order (add_member gm g member t) g t n id g' t'
              (joined-IsUnique u)
            ∙ simp other (add_member_assignment g' id t');
      }

module _ (o o' : RangeOrder) (g t : Bytes) (n : ℤ) where
  rebalance_order : (gm : GroupManager) → rebalance o gm g t n ≡ rebalance o' gm g t n
  unfolding rebalance
  rebalance_order gm =
      ap
        (λ members. record gm {
          assignments =
              modify g (λ topics. modify t (assign members n) (ensure t topics))
                (ensure g gm.assignments);
        })
        (sorted_members_order o o' (members_of gm g t))

  leave_topics_order :
      (gm : GroupManager) (topics : GoMap Members)
      → leave_topics o gm g t n topics ≡ leave_topics o' gm g t n topics
  unfolding leave_topics
  leave_topics_order gm [] = refl
  leave_topics_order gm (e ∷ topics) =
      rebalance_order (record gm { groups = put g (e ∷ topics) gm.groups })

  -- What `join` returns, and the states that `join` and `leave` lead to, do not depend on the order
  -- in which the runtime ranges over the set of members.
  pub calls_order :
      (gm : GroupManager) (member : Bytes)
      → (join o gm g member t n ≡ join o' gm g member t n)
        × (leave o gm g member t n ≡ leave o' gm g member t n)
  unfolding join leave
  calls_order gm member = (
    rw (rebalance_order (add_member gm g member t)) refl,
    ap
        (λ (rest : GoMap Members → GroupManager).
          if is_empty g || is_empty member || is_empty t then gm else elim (get g gm.groups) [
            | none ↦ gm
            | some topics ↦ elim (get t topics) [
              | none ↦ gm
              | some members ↦ rest (put_or_drop t (delete member members) topics)
            ]
          ])
        (fun_ext (leave_topics_order gm)),
  )
