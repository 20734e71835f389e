-- ===== src/Groups/Balance.antt =====
-- `Join` and `Leave` of internal/consumer/group_manager.go keep the invariant of the group manager:
-- each member is in its set once, and the partitions of each topic are dealt out to its members.
use go_pub_sub.Prelude.{
  ◌≡◌, refl, sym, ap, ◌∙◌, subst, Bool, true, false, Option, none, some, [], ◌∷◌, arith,
  if◌then◌else◌, Bool-cases, inl, inr, ℕ, length, ◌||◌,
}
use go_pub_sub.Prelude.Int.{pos, leb_ℤ}
use go_pub_sub.Text.{Bytes, bytes_eq, bytes_eq_iff, is_empty}
use go_pub_sub.GoMap.{GoMap, RangeOrder, get, put, delete, get-delete}
use go_pub_sub.GoMap.Unique.{IsUnique, put-IsUnique, delete-IsUnique}
use go_pub_sub.Groups.{
  GroupManager, Members, members_of, or_empty, get_assignment, add_member, rebalance, leave_topics,
  leave, join, put_or_drop, sorted_members,
}
use go_pub_sub.Groups.Shares.{shares, index_of, assigned}
use go_pub_sub.Groups.Nested.{at_pair, same_pair, same_pair_refl}
use go_pub_sub.Groups.Roster.{member_of_index}
use go_pub_sub.Groups.Rebalance.{roster, IsBalanced, get_assignment_lem, get_assignment-rebalance}
use go_pub_sub.Groups.Membership.{at-put_or_drop_pair, members_of-add_member, leave_cases}

-- Each member is in its set once.
abbrev pub IsValid : GroupManager → Type 0
IsValid gm = (g t : Bytes) → IsUnique (members_of gm g t)

same_pair_eq : (g t g' t' : Bytes) → same_pair g t g' t' ≡ true → (g ≡ g') × (t ≡ t')
same_pair_eq g t g' t' e = (ground (arith, bytes_eq_iff g g'), ground (arith, bytes_eq_iff t t'))

write-IsValid :
    (gm gm' : GroupManager) (g t : Bytes) (v : Members)
    → ((g' t' : Bytes)
        → members_of gm' g' t' ≡ (if same_pair g t g' t' then v else members_of gm g' t'))
    → IsUnique v
    → IsValid gm
    → IsValid gm'
write-IsValid gm gm' g t v now u valid g' t' =
    subst IsUnique (sym (now g' t')) (unique (same_pair g t g' t'))
  where
    unique : (b : Bool) → IsUnique (if b then v else members_of gm g' t')
    unique true = u
    unique false = valid g' t'

-- An empty set has no member with an index.
pub no_members :
    (order : RangeOrder) (ms : Members)
    → ms ≡ []
    → (id : Bytes) (i : ℕ) → ¬ (index_of id (sorted_members order ms) ≡ some i)
no_members order ms empty id i e =
    not_some (sym (ap (get id) empty) ∙ member_of_index order ms id i e)
  where
    not_some : Path (Option (Unit {0})) (get id []) (some tt) → ⊥
    not_some h = unfold get in (absurd (cc h))

-- The manager without a group.
abbrev without : GroupManager → Bytes → GroupManager
without gm g = record { groups = delete g gm.groups; assignments = delete g gm.assignments }

module _ (order : RangeOrder) (count : Bytes → ℕ) where
  -- The partitions of all topics are dealt out, where `count` is their number.
  abbrev pub IsSound : GroupManager → Type 0
  IsSound gm = IsValid gm × ((g t : Bytes) → IsBalanced order gm g t (count t))

  -- They are, but for those of one group and topic.
  abbrev IsSoundBut : Bytes → Bytes → GroupManager → Type 0
  IsSoundBut g t gm =
      IsValid gm
      × ((g' t' : Bytes) → same_pair g t g' t' ≡ false → IsBalanced order gm g' t' (count t'))

  pub rebalance-IsBalanced :
      (gm : GroupManager) (g t : Bytes) (n : ℕ)
      → IsUnique (members_of gm g t)
      → IsBalanced order (rebalance order gm g t (pos n)) g t n
  unfolding rebalance
  rebalance-IsBalanced gm g t n u id i e =
      get_assignment-rebalance order gm g t n id g t u
      ∙ simp (same_pair_refl g t)
          (ap (λ o. assigned (length (roster order gm g t)) n o (get_assignment gm g id t)) e)

  rebalance-IsSound :
      (gm : GroupManager) (g t : Bytes)
      → IsSoundBut g t gm
      → IsSound (rebalance order gm g t (pos (count t)))
  unfolding rebalance
  rebalance-IsSound gm g t (valid, rest) = (valid, λ g' t'. at_ g' t' (same_pair g t g' t') refl)
    where
      at_ :
          (g' t' : Bytes) (b : Bool)
          → same_pair g t g' t' ≡ b
          → IsBalanced order (rebalance order gm g t (pos (count t))) g' t' (count t')
      at_ g' t' true same =
          let (eg, et) = same_pair_eq g t g' t' same in
          subst (λ k. IsBalanced order (rebalance order gm g t (pos (count t))) k t' (count t')) eg
            (subst (λ k. IsBalanced order (rebalance order gm g t (pos (count t))) g k (count k)) et
              (rebalance-IsBalanced gm g t (count t) (valid g t)))
      at_ g' t' false other = λ id i e.
          get_assignment-rebalance order gm g t (count t) id g' t' (valid g t)
          ∙ simp other (rest g' t' other id i e)

  -- The invariant outside one group and topic, where the set of members becomes `v`.
  write-IsSoundBut :
      (gm gm' : GroupManager) (g t : Bytes) (v : Members)
      → ((g' t' : Bytes)
          → members_of gm' g' t' ≡ (if same_pair g t g' t' then v else members_of gm g' t'))
      → ((g' id t' : Bytes)
          → same_pair g t g' t' ≡ false
          → get_assignment gm' g' id t' ≡ get_assignment gm g' id t')
      → IsUnique v
      → IsSound gm
      → IsSoundBut g t gm'
  write-IsSoundBut gm gm' g t v now held u (valid, balanced) = (
    write-IsValid gm gm' g t v now u valid,
    λ g' t' other.
        subst (λ ms. IsDealt ms g' t') (sym (now g' t' ∙ simp other refl))
          (λ id i e. held g' id t' other ∙ balanced g' t' id i e),
  )
    where
      IsDealt : Members → Bytes → Bytes → Type 0
      IsDealt ms g' t' =
          (id : Bytes) (i : ℕ)
          → index_of id (sorted_members order ms) ≡ some i
          → get_assignment gm' g' id t'
            ≡ some (shares (length (sorted_members order ms)) i (count t') 0)

  add_member-IsSoundBut :
      (gm : GroupManager) (g member t : Bytes)
      → IsSound gm
      → IsSoundBut g t (add_member gm g member t)
  unfolding add_member get_assignment
  add_member-IsSoundBut gm g member t sound =
      write-IsSoundBut gm (add_member gm g member t) g t (put member tt (members_of gm g t))
        (members_of-add_member gm g member t) (λ g' id t' _. refl)
        (put-IsUnique member tt (members_of gm g t) (sound.0 g t)) sound

  pub join-IsSound :
      (gm : GroupManager) (g member t : Bytes)
      → IsSound gm
      → IsSound (join order gm g member t (pos (count t))).1
  unfolding join
  join-IsSound gm g member t sound =
      elim (Bool-cases (is_empty g || is_empty member || is_empty t)) [
        | inl blank ↦ simp blank sound
        | inr named ↦ elim (Bool-cases (leb_ℤ (pos (count t)) (pos 0))) [
          | inl few ↦ simp (named, few) sound
          | inr many ↦
              simp (named, many)
                (rebalance-IsSound (add_member gm g member t) g t
                  (add_member-IsSoundBut gm g member t sound))
        ]
      ]

  -- Without the members and the assignments of one group, the others' are dealt out still.
  delete-IsBalanced :
      (gm : GroupManager) (g g' t' : Bytes) (n : ℕ)
      → IsBalanced order gm g' t' n
      → IsBalanced order (without gm g) g' t' n
  delete-IsBalanced gm g g' t' n balanced = elim (Bool-cases (bytes_eq g g')) [
    | inl same ↦
        λ id i e. absurd (no_members order (at_pair (delete g gm.groups) g' t') (empty same) id i e)
    | inr other ↦
        subst (λ ms. IsDealt ms)
          (sym (ap (λ o. or_empty (get t' (or_empty o))) (keeps gm.groups other)))
          (λ id i e.
            get_assignment_lem gm' g' id t'
            ∙ ap (λ o. get id (or_empty (get t' (or_empty o)))) (keeps gm.assignments other)
            ∙ sym (get_assignment_lem gm g' id t')
            ∙ balanced id i e)
  ]
    where
      gm' : GroupManager
      gm' = without gm g

      IsDealt : Members → Type 0
      IsDealt ms =
          (id : Bytes) (i : ℕ)
          → index_of id (sorted_members order ms) ≡ some i
          → get_assignment gm' g' id t' ≡ some (shares (length (sorted_members order ms)) i n 0)

      keeps : {V : Type 0} (m : GoMap V) → bytes_eq g g' ≡ false → get g' (delete g m) ≡ get g' m
      keeps m other = get-delete g g' m ∙ simp other refl

      gone : bytes_eq g g' ≡ true → get g' (delete g gm.groups) ≡ none
      gone same = get-delete g g' gm.groups ∙ simp same refl

      missing : or_empty (get t' (or_empty {V = Members} none)) ≡ []
      missing = unfold get in refl

      empty : bytes_eq g g' ≡ true → at_pair (delete g gm.groups) g' t' ≡ []
      empty same = ap (λ o. or_empty (get t' (or_empty o))) (gone same) ∙ missing

  leave_topics-IsSound :
      (gm : GroupManager) (g t : Bytes) (v : Members) (topics : GoMap Members)
      → get g gm.groups ≡ some topics
      → IsUnique v
      → IsSound gm
      → IsSound (leave_topics order gm g t (pos (count t)) (put_or_drop t v topics))
  unfolding leave_topics put_or_drop get_assignment
  leave_topics-IsSound gm g t v topics e u sound =
      left (put_or_drop t v topics) (λ g' t'. at-put_or_drop_pair g t g' t' v topics gm.groups e)
    where
      left :
          (ts : GoMap Members)
          → ((g' t' : Bytes)
              → at_pair (put_or_drop g ts gm.groups) g' t'
                ≡ (if same_pair g t g' t' then v else members_of gm g' t'))
          → IsSound (leave_topics order gm g t (pos (count t)) ts)
      left [] now = (
        write-IsValid gm (without gm g) g t v now u sound.0,
        λ g' t'. delete-IsBalanced gm g g' t' (count t') (sound.1 g' t'),
      )
      left (x ∷ ts) now =
          rebalance-IsSound (record gm { groups = put g (x ∷ ts) gm.groups }) g t
            (write-IsSoundBut gm (record gm { groups = put g (x ∷ ts) gm.groups }) g t v now
              (λ g' id t' _. refl) u sound)

  pub leave-IsSound :
      (gm : GroupManager) (g member t : Bytes)
      → IsSound gm
      → IsSound (leave order gm g member t (pos (count t)))
  leave-IsSound gm g member t sound =
      leave_cases order gm g t (count t) IsSound member sound (λ topics members e e'.
        leave_topics-IsSound gm g t (delete member members) topics e
          (delete-IsUnique member members (
            subst IsUnique (ap (λ o. or_empty (get t (or_empty o))) e ∙ ap or_empty e')
              (sound.0 g t)))
          sound)
