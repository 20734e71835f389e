-- ===== src/Groups/Nested.antt =====
-- The two-level maps of internal/consumer/group_manager.go: what a write at one group and topic
-- shows at another.
use go_pub_sub.Prelude.{
  ◌≡◌, refl, ◌∙◌, ap, Bool, true, ◌&&◌, [], arith, Bool-cases, Option-cases, inl, inr,
  if◌then◌else◌,
}
use go_pub_sub.Text.{Bytes, bytes_eq, bytes_eq_iff, bytes_eq_refl}
use go_pub_sub.GoMap.{GoMap, get, get-put}
use go_pub_sub.Groups.{or_empty, ensure, modify}

abbrev pub same_pair : Bytes → Bytes → Bytes → Bytes → Bool
same_pair g t g' t' = bytes_eq g g' && bytes_eq t t'

pub same_pair_refl : (g t : Bytes) → same_pair g t g t ≡ true
same_pair_refl g t = ground (arith, bytes_eq_refl g, bytes_eq_refl t)

module _ {V : Type 0} where
  abbrev pub at_pair : GoMap (GoMap (GoMap V)) → Bytes → Bytes → GoMap V
  at_pair m g t = or_empty (get t (or_empty (get g m)))

  -- a write at a group and topic, which makes the maps that are missing
  abbrev pub write_pair :
      Bytes → Bytes → (GoMap V → GoMap V) → GoMap (GoMap (GoMap V)) → GoMap (GoMap (GoMap V))
  write_pair g t f m = modify g (λ topics. modify t f (ensure t topics)) (ensure g m)

module _ {V : Type 0} where
  at-ensure :
      (k j : Bytes) (m : GoMap (GoMap V)) → or_empty (get j (ensure k m)) ≡ or_empty (get j m)
  unfolding ensure
  at-ensure k j m = elim (Option-cases (get k m)) [
    | inl e ↦ rw (e, ensure) (ground (arith, get-put k j [] m, bytes_eq_iff k j))
    | inr (v, e) ↦ rw (e, ensure) refl
  ]

  at-modify :
      (k j : Bytes) (f : GoMap V → GoMap V) (m : GoMap (GoMap V))
      → or_empty (get j (modify k f m))
        ≡ (if bytes_eq k j then f (or_empty (get k m)) else or_empty (get j m))
  at-modify k j f m = ground (arith, get-put k j (f (or_empty (get k m))) m)

module _ {V : Type 0} (g t g' t' : Bytes) (f : GoMap V → GoMap V)
    (m : GoMap (GoMap (GoMap V))) where
  -- The write is seen at its own pair of keys and nowhere else.
  pub at-write_pair :
      at_pair (write_pair g t f m) g' t'
      ≡ (if same_pair g t g' t' then f (at_pair m g t) else at_pair m g' t')
  at-write_pair =
      ap inner (at-modify g g' write_topic (ensure g m)) ∙ elim (Bool-cases (bytes_eq g g')) [
        | inl same ↦
            rw (same, at-ensure g g m)
              (at-modify t t' f (ensure t (or_empty (get g m)))
                ∙ rw
                    (
                      at-ensure t t (or_empty (get g m)),
                      at-ensure t t' (or_empty (get g m)),
                      ap or_empty (ap (λ k. get k m) ((bytes_eq_iff g g').0 same)),
                    )
                    refl)
        | inr other ↦ rw (other, at-ensure g g' m) refl
      ]
    where
      write_topic : GoMap (GoMap V) → GoMap (GoMap V)
      write_topic topics = modify t f (ensure t topics)

      inner : GoMap (GoMap V) → GoMap V
      inner topics = or_empty (get t' topics)
