-- ===== src/Topics/Validate.antt =====
-- `ValidatePartition` of internal/broker/topic_manager.go.
use go_pub_sub.Prelude.{◌≡◌, ◌≢◌, ◌↔◌, refl, none, some, [], ◌∷◌, arith, Option-cases, inl, inr}
use go_pub_sub.Prelude.Int.{ℤ, pos, ◌≤ℤ◌, ◌<ℤ◌}
use go_pub_sub.Text.{Bytes}
use go_pub_sub.GoMap.{get}
use go_pub_sub.Topics.{TopicInfo, TopicManager, validate_partition}

-- `p` is a partition of a topic that the manager has under a name.
pub record IsKnownPartition (tm : TopicManager) (name : Bytes) (p : ℤ) : Type 0 where
  pub named : name ≢ []
  pub info : TopicInfo
  pub known : get name tm.topics ≡ some info
  pub not_negative : pos 0 ≤ℤ p
  pub below : p <ℤ info.partitions

-- `ValidatePartition` returns no error exactly for the partitions of the topics that the manager
-- has under a name that is not empty.
pub validate_partition_iff :
    (tm : TopicManager) (name : Bytes) (p : ℤ)
    → (validate_partition tm name p ≡ none) ↔ IsKnownPartition tm name p
unfolding validate_partition
validate_partition_iff tm [] p = (λ e. cc, λ k. absurd (k.named refl))
validate_partition_iff tm (b ∷ name) p = elim (Option-cases (get (b ∷ name) tm.topics)) [
  | inl q ↦ (λ e. absurd (ground arith), λ k. absurd (ground (arith, k.known)))
  | inr (ti, q) ↦ (
    λ e. record {
      named = λ r. cc;
      info = ti;
      known = q;
      not_negative = ground arith;
      below = ground arith;
    },
    λ k. ground (arith, k.known, k.not_negative, k.below),
  )
]
