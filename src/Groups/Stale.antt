-- ===== src/Groups/Stale.antt =====
-- What `Leave` of internal/consumer/group_manager.go does not do: the assignment of the member that
-- leaves is not removed, as long as its group is there.
use go_pub_sub.Prelude.{
  ℕ, ◌≡◌, ◌≢◌, refl, sym, ap, ◌∙◌, Option, none, some, [], ◌∷◌, arith, subst, length,
}
use go_pub_sub.Prelude.Int.{pos}
use go_pub_sub.Text.{Bytes, bytes_eq_iff, bytes_eq_refl}
use go_pub_sub.GoMap.{GoMap, RangeOrder, get, put, delete, get-delete}
use go_pub_sub.GoMap.Unique.{IsUnique, delete-IsUnique}
use go_pub_sub.Groups.{
  GroupManager, Members, members_of, or_empty, put_or_drop, get_assignment, rebalance, leave_topics,
  leave,
}
use go_pub_sub.Groups.Shares.{index_of, assigned}
use go_pub_sub.Groups.Nested.{at_pair, same_pair_refl}
use go_pub_sub.Groups.Roster.{member_of_index}
use go_pub_sub.Groups.Rebalance.{roster, get_assignment-rebalance}
use go_pub_sub.Groups.Membership.{at-put_or_drop_pair, leave_cases}

module _ (order : RangeOrder) (gm : GroupManager) (g t : Bytes) (n : ℕ) where
  -- A rebalance keeps the entry of an id that is not a member.
  rebalance_stale :
      (id : Bytes)
      → IsUnique (members_of gm g t)
      → get id (members_of gm g t) ≡ none
      → get_assignment (rebalance order gm g t (pos n)) g id t ≡ get_assignment gm g id t
  rebalance_stale id u away =
      get_assignment-rebalance order gm g t n id g t u
      ∙ simp (same_pair_refl g t) (not_dealt (index_of id (roster order gm g t)) refl)
    where
      clash : {o : Option (Unit {0})} → o ≡ some tt → o ≡ none → ⊥
      clash p q = cc

      not_dealt :
          (o : Option ℕ)
          → index_of id (roster order gm g t) ≡ o
          → assigned (length (roster order gm g t)) n o (get_assignment gm g id t)
            ≡ get_assignment gm g id t
      not_dealt none e = refl
      not_dealt (some i) e = absurd (clash (member_of_index order (members_of gm g t) id i e) away)

module _ (order : RangeOrder) (gm : GroupManager) (g t : Bytes) (n : ℕ) where
  regroup_stale :
      (id : Bytes) (topics : GoMap Members) (v : Members)
      → at_pair (put g topics gm.groups) g t ≡ v
      → IsUnique v
      → get id v ≡ none
      → get_assignment
          (rebalance order (record gm { groups = put g topics gm.groups }) g t (pos n))
          g
          id
          t
        ≡ get_assignment gm g id t
  unfolding get_assignment
  regroup_stale id topics v e u away =
      rebalance_stale order (record gm { groups = put g topics gm.groups }) g t n id
        (subst IsUnique (sym e) u) (ap (get id) e ∙ away)

  no_group : at_pair (delete g gm.groups) g t ≡ []
  unfolding get
  no_group = ap (λ o. or_empty (get t (or_empty o))) gone
    where
      gone : get g (delete g gm.groups) ≡ none
      gone = get-delete g g gm.groups ∙ simp (bytes_eq_refl g) refl

  leave_topics_stale :
      (id : Bytes) (topics : GoMap Members) (v : Members)
      → at_pair (put_or_drop g topics gm.groups) g t ≡ v
      → IsUnique v
      → get id v ≡ none
      → v ≢ []
      → get_assignment (leave_topics order gm g t (pos n) topics) g id t ≡ get_assignment gm g id t
  unfolding leave_topics put_or_drop
  leave_topics_stale id [] v e u away rest = absurd (rest (sym e ∙ no_group))
  leave_topics_stale id (x ∷ topics) v e u away rest = regroup_stale id (x ∷ topics) v e u away

  -- If a group has another member for a topic, and its set holds each member once, then a member
  -- that leaves keeps its assignment: `get_assignment` returns for it what it returned before.
  pub leave_keeps_assignment :
      (member other : Bytes)
      → IsUnique (members_of gm g t)
      → other ≢ member
      → get other (members_of gm g t) ≡ some tt
      → get_assignment (leave order gm g member t (pos n)) g member t ≡ get_assignment gm g member t
  leave_keeps_assignment member other u differ stays =
      leave_cases order gm g t n
        (λ gm'. get_assignment gm' g member t ≡ get_assignment gm g member t) member refl
        (λ topics members e e'.
          let here : members_of gm g t ≡ members =
            ap (λ o. or_empty (get t (or_empty o))) e ∙ ap or_empty e' in
          let v = delete member members in
          leave_topics_stale member (put_or_drop t v topics) v
            (at-put_or_drop_pair g t g t v topics gm.groups e ∙ simp (same_pair_refl g t) refl)
            (delete-IsUnique member members (subst IsUnique here u))
            (get-delete member member members ∙ simp (bytes_eq_refl member) refl)
            (not_empty members (ap (get other) (sym here) ∙ stays)))
    where
      not_empty : (ms : Members) → get other ms ≡ some tt → delete member ms ≢ []
      not_empty ms e empty = nothing (
          sym (ap (get other) empty)
          ∙ get-delete member other ms
          ∙ ground (arith, bytes_eq_iff member other))
        where
          nothing : Path (Option (Unit {0})) (get other []) (some tt) → ⊥
          nothing h = unfold get in (absurd (cc h))
