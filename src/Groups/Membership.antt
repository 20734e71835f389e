-- ===== src/Groups/Membership.antt =====
-- Who is in a group after `Join` and `Leave` of internal/consumer/group_manager.go.
use go_pub_sub.Prelude.{
  ◌≡◌, refl, sym, ap, ◌∙◌, ◌||◌, Option, none, some, [], ◌∷◌, arith, if◌then◌else◌, Bool-cases, inl,
  inr, ℕ,
}
use go_pub_sub.Prelude.Int.{pos}
use go_pub_sub.Text.{Bytes, bytes_eq, bytes_eq_iff, is_empty}
use go_pub_sub.GoMap.{GoMap, RangeOrder, get, put, delete, get-put, get-delete}
use go_pub_sub.Groups.{
  GroupManager, Members, members_of, or_empty, put_or_drop, add_member, rebalance, leave_topics,
  leave,
}
use go_pub_sub.Groups.Nested.{at_pair, same_pair, at-write_pair}

module _ {V : Type 0} where
  at-put_or_drop :
      (k j : Bytes) (v : GoMap V) (m : GoMap (GoMap V))
      → or_empty (get j (put_or_drop k v m)) ≡ (if bytes_eq k j then v else or_empty (get j m))
  unfolding put_or_drop
  at-put_or_drop k j [] m = ground (arith, get-delete k j m)
  at-put_or_drop k j (e ∷ v) m = ground (arith, get-put k j (e ∷ v) m)

module _ {V : Type 0} where
  -- To drop what becomes empty, on both levels, looks like a write of the empty map.
  pub at-put_or_drop_pair :
      (g t g' t' : Bytes) (v : GoMap V) (topics : GoMap (GoMap V)) (m : GoMap (GoMap (GoMap V)))
      → get g m ≡ some topics
      → at_pair (put_or_drop g (put_or_drop t v topics) m) g' t'
        ≡ (if same_pair g t g' t' then v else at_pair m g' t')
  at-put_or_drop_pair g t g' t' v topics m e =
      ap (λ x. or_empty (get t' x)) (at-put_or_drop g g' (put_or_drop t v topics) m)
      ∙ elim (Bool-cases (bytes_eq g g')) [
        | inl same ↦ simp same (
            at-put_or_drop t t' v topics
            ∙ ap (λ o. if bytes_eq t t' then v else or_empty (get t' (or_empty o)))
                (sym e ∙ ap (λ k. get k m) ((bytes_eq_iff g g').0 same)))
        | inr other ↦ simp other refl
      ]

pub members_of-add_member :
    (gm : GroupManager) (g member t g' t' : Bytes)
    → members_of (add_member gm g member t) g' t'
      ≡ (if same_pair g t g' t' then put member tt (members_of gm g t) else members_of gm g' t')
unfolding add_member
members_of-add_member gm g member t g' t' = at-write_pair g t g' t' (put member tt) gm.groups

module _ (order : RangeOrder) (gm : GroupManager) (g t : Bytes) (n : ℕ) where
  pub members_of-rebalance :
      (g' t' : Bytes) → members_of (rebalance order gm g t (pos n)) g' t' ≡ members_of gm g' t'
  unfolding rebalance
  members_of-rebalance g' t' = refl

  pub groups-leave_topics :
      (topics : GoMap Members)
      → (leave_topics order gm g t (pos n) topics).groups ≡ put_or_drop g topics gm.groups
  unfolding leave_topics rebalance put_or_drop
  groups-leave_topics [] = refl
  groups-leave_topics (e ∷ topics) = refl

  -- The ways in which `leave` ends: nobody to remove, or the rest of the work for the topics left.
  pub leave_cases :
      (P : GroupManager → Type 0) (member : Bytes)
      → P gm
      → ((topics : GoMap Members) (members : Members)
          → get g gm.groups ≡ some topics
          → get t topics ≡ some members
          → P (leave_topics order gm g t (pos n) (put_or_drop t (delete member members) topics)))
      → P (leave order gm g member t (pos n))
  unfolding leave
  leave_cases P member stays goes =
      elim (Bool-cases (is_empty g || is_empty member || is_empty t)) [
        | inl blank ↦ simp blank stays
        | inr named ↦ simp named (in_group (get g gm.groups) refl)
      ]
    where
      in_topic :
          (topics : GoMap Members)
          → get g gm.groups ≡ some topics
          → (o : Option Members) → get t topics ≡ o
          → P (elim o [
            | none ↦ gm
            | some members ↦
                leave_topics order gm g t (pos n) (put_or_drop t (delete member members) topics)
          ])
      in_topic topics e none e' = stays
      in_topic topics e (some members) e' = goes topics members e e'

      in_group :
          (o : Option (GoMap Members))
          → get g gm.groups ≡ o
          → P (elim o [
            | none ↦ gm
            | some topics ↦ elim (get t topics) [
              | none ↦ gm
              | some members ↦
                  leave_topics order gm g t (pos n) (put_or_drop t (delete member members) topics)
            ]
          ])
      in_group none e = stays
      in_group (some topics) e = in_topic topics e (get t topics) refl
