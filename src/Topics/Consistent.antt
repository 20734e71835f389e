-- ===== src/Topics/Consistent.antt =====
-- That internal/broker/topic_manager.go and partition_manager.go agree on every topic.
use go_pub_sub.Prelude.{ℕ, ◌≡◌, refl, sym, ap, ◌∙◌, Option, none, some, arith, Bool-cases, inl, inr}
use go_pub_sub.Prelude.Int.{ℤ, pos, ◌≤ℤ◌}
use go_pub_sub.Text.{Bytes, bytes_eq, bytes_eq_iff}
use go_pub_sub.GoMap.{get}
use go_pub_sub.Go.{Error}
use go_pub_sub.Storage.{Message, LogStorage}
use go_pub_sub.Partitions
use go_pub_sub.Partitions.{PartitionManager}
use go_pub_sub.Partitions.Registered.{entry, get-append_lem}
use go_pub_sub.Topics.{TopicInfo, TopicManager, new_info, create_topic}
use go_pub_sub.Topics.Create.{
  IsCreatable, Effect, create_topic-Effect, create_topic_iff, max_partitions-create_topic,
}

-- what the two managers agree on for one topic that the topic manager has
pub record IsAgreed (tm : TopicManager) (pm : PartitionManager) (t : Bytes) (ti : TopicInfo)
    : Type 0 where
  pub named : ti.name ≡ t
  pub counted : get t pm.partitions ≡ some ti.partitions
  pub positive : pos 1 ≤ℤ ti.partitions
  pub few : ti.partitions ≤ℤ tm.max_partitions

abbrev pub IsConsistent : TopicManager → PartitionManager → Type 0
IsConsistent tm pm = (t : Bytes) (ti : TopicInfo) → get t tm.topics ≡ some ti → IsAgreed tm pm t ti

module _ (now : ℕ) (tm : TopicManager) (pm : PartitionManager) (name : Bytes) (n r : ℤ) where
  Effect-IsConsistent :
      (o : Option Error × TopicManager × PartitionManager)
      → o.1.max_partitions ≡ tm.max_partitions
      → (o.0 ≡ none → IsCreatable tm pm name n)
      → Effect now tm pm name n r o
      → IsConsistent tm pm
      → IsConsistent o.1 o.2
  Effect-IsConsistent (none, tm', pm') mx creatable eff c t ti e =
      let a = (creatable refl).acceptable in
      elim (Bool-cases (bytes_eq name t)) [
        | inl same ↦
            let is_new : ti ≡ new_info now tm name n r = ground (arith, eff t) in
            let parts = ap (λ (i : TopicInfo). i.partitions) is_new in
            record {
              named = ap (λ (i : TopicInfo). i.name) is_new ∙ (bytes_eq_iff name t).0 same;
              counted = (eff t).1 ∙ ground arith;
              positive = rw is_new a.positive;
              few = rw (is_new, mx) a.few;
            }
        | inr other ↦
            let old = c t ti (ground (arith, eff t)) in
            record {
              named = old.named;
              counted = (eff t).1 ∙ rw other old.counted;
              positive = old.positive;
              few = rw mx old.few;
            }
      ]
  Effect-IsConsistent (some _, tm', pm') mx creatable (same, eff) c t ti e =
      let old = c t ti (sym (eff t) ∙ e) in
      record {
        named = old.named;
        counted = rw same old.counted;
        positive = old.positive;
        few = rw mx old.few;
      }

  -- Creating a topic, with success or without, keeps the two managers in agreement.
  pub create_topic-IsConsistent :
      IsConsistent tm pm
      → let (_, tm', pm') = create_topic now tm pm name n r in IsConsistent tm' pm'
  create_topic-IsConsistent =
      Effect-IsConsistent (create_topic now tm pm name n r)
        (max_partitions-create_topic now tm pm name n r) (create_topic_iff now tm pm name n r).0
        (create_topic-Effect now tm pm name n r)

-- An append to any topic, known or not, with any store, keeps the two managers in agreement.
pub append-IsConsistent :
    (L : LogStorage) (now : ℕ) (tm : TopicManager) (pm : PartitionManager) (st : L.State)
    (t : Bytes) (hint : ℤ) (key : Bytes) (m : Message)
    → IsConsistent tm pm
    → IsConsistent tm (Partitions.append L now pm st t hint key m).2
append-IsConsistent L now tm pm st t hint key m c u ti e =
    let old = c u ti e in
    record {
      named = old.named;
      counted = get-append_lem L now pm st u t hint key m ∙ ap (entry (bytes_eq t u)) old.counted;
      positive = old.positive;
      few = old.few;
    }
