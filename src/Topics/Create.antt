-- ===== src/Topics/Create.antt =====
-- The outcomes of `CreateTopic` and `ValidatePartition` of internal/broker/topic_manager.go.
use go_pub_sub.Prelude.{
  ℕ, ◌≡◌, ◌≢◌, ◌↔◌, ◌⊎◌, refl, sym, ap, subst, ◌∙◌, Option, none, some, [], ◌∷◌, arith,
  Option-cases, inl, inr, if◌then◌else◌,
}
use go_pub_sub.Prelude.Int.{ℤ, pos, ◌≤ℤ◌}
use go_pub_sub.Text.{Bytes, bytes_eq, bytes_eq_iff}
use go_pub_sub.GoMap.{get, put, delete, get-put, get-delete}
use go_pub_sub.Go.{Error, topic_already_exists, create_failed}
use go_pub_sub.Partitions
use go_pub_sub.Partitions.{PartitionManager}
use go_pub_sub.Partitions.Locks.{create_topic_lem}
use go_pub_sub.Topics.{
  TopicManager, new_info, check_arguments, begin_create, undo_or_keep, finish_create, after_begin,
  create_topic,
}

-- the arguments that `CreateTopic` takes
pub record IsAcceptable (tm : TopicManager) (name : Bytes) (partitions : ℤ) : Type 0 where
  pub named : name ≢ []
  pub positive : pos 1 ≤ℤ partitions
  pub enough : tm.min_partitions ≤ℤ partitions
  pub few : partitions ≤ℤ tm.max_partitions

check_arguments_iff :
    (tm : TopicManager) (name : Bytes) (n : ℤ)
    → (check_arguments tm name n ≡ none) ↔ IsAcceptable tm name n
unfolding check_arguments
check_arguments_iff tm [] n = (λ e. cc, λ a. absurd (a.named refl))
check_arguments_iff tm (c ∷ name) n = (
  λ e. record {
    named = λ q. cc;
    positive = ground arith;
    enough = ground arith;
    few = ground arith;
  },
  λ a. ground arith,
)

-- When `CreateTopic` can do its work.
pub record IsCreatable (tm : TopicManager) (pm : PartitionManager) (name : Bytes) (n : ℤ)
    : Type 0 where
  pub acceptable : IsAcceptable tm name n
  pub no_metadata : get name tm.topics ≡ none
  pub no_partitions : get name pm.partitions ≡ none

pub pm_create_some :
    (pm : PartitionManager) (t : Bytes) (n z : ℤ)
    → pos 1 ≤ℤ n
    → get t pm.partitions ≡ some z
    → Partitions.create_topic pm t n ≡ (some (topic_already_exists t), pm)
unfolding Partitions.create_topic
pm_create_some pm t n z lo e = ground arith

module _ (now : ℕ) (tm : TopicManager) (pm : PartitionManager) (name : Bytes) (n r : ℤ) where
  -- the metadata as they are between the two halves of `CreateTopic`
  abbrev pub with_metadata : TopicManager
  with_metadata = record tm { topics = put name (new_info now tm name n r) tm.topics }

  abbrev pub undone : TopicManager
  undone = record tm { topics = delete name with_metadata.topics }

  pub begin_create_lem :
      IsAcceptable tm name n
      → get name tm.topics ≡ none
      → begin_create now tm name n r ≡ (none, with_metadata)
  unfolding begin_create
  begin_create_lem a e = rw ((check_arguments_iff tm name n).1 a, e, begin_create)

  begin_create_refused :
      ((e : Error) × (begin_create now tm name n r ≡ (some e, tm)) × ¬ IsCreatable tm pm name n)
      ⊎ (IsAcceptable tm name n × (get name tm.topics ≡ none))
  unfolding begin_create
  begin_create_refused = elim (Option-cases (check_arguments tm name n)) [
    | inr (e, bad) ↦
        inl
          (e, rw (bad, begin_create), λ c. cc (bad, (check_arguments_iff tm name n).1 c.acceptable))
    | inl good ↦ elim (Option-cases (get name tm.topics)) [
      | inr (ti, q) ↦
          inl (topic_already_exists name, rw (good, q, begin_create), λ c. cc (q, c.no_metadata))
      | inl q ↦ inr ((check_arguments_iff tm name n).0 good, q)
    ]
  ]

  finish_create_lem :
      IsAcceptable tm name n
      → get name pm.partitions ≡ none
      → finish_create with_metadata pm name n
        ≡ (none, with_metadata, (Partitions.create_topic pm name n).1)
  unfolding finish_create undo_or_keep
  finish_create_lem a e =
      let (created, _, _) = create_topic_lem pm name n a.positive e in
      ap (λ q. undo_or_keep with_metadata name (q, (Partitions.create_topic pm name n).1)) created

  -- The three ways in which `CreateTopic` ends.
  create_cases :
      (P : Option Error × TopicManager × PartitionManager → Type 0)
      → ((e : Error) → ¬ IsCreatable tm pm name n → P (some e, tm, pm))
      → ((e : Error)
          → ¬ IsCreatable tm pm name n
          → get name tm.topics ≡ none
          → P (some e, undone, pm))
      → (IsCreatable tm pm name n → P (none, with_metadata, (Partitions.create_topic pm name n).1))
      → P (create_topic now tm pm name n r)
  unfolding create_topic after_begin finish_create undo_or_keep
  create_cases P refused undo create = elim begin_create_refused [
    | inl (e, q, no_) ↦ subst P (sym (ap (after_begin pm name n) q)) (refused e no_)
    | inr (a, e) ↦
        let begun = ap (after_begin pm name n) (begin_create_lem a e) in
        elim (Option-cases (get name pm.partitions)) [
          | inr (z, f) ↦
              subst P
                (sym (
                  begun
                  ∙ ap (undo_or_keep with_metadata name) (pm_create_some pm name n z a.positive f)))
                (undo (create_failed (topic_already_exists name)) (λ c. cc (f, c.no_partitions)) e)
          | inl f ↦
              subst P (sym (begun ∙ finish_create_lem a f))
                (create (record { acceptable = a; no_metadata = e; no_partitions = f }))
        ]
  ]

  pub max_partitions-create_topic :
      (create_topic now tm pm name n r).1.max_partitions ≡ tm.max_partitions
  max_partitions-create_topic =
      create_cases (λ o. o.1.max_partitions ≡ tm.max_partitions) (λ _ _. refl) (λ _ _ _. refl)
        (λ _. refl)

  -- `CreateTopic` succeeds exactly if the name is not empty, the count is positive and within the
  -- limits, and neither manager has the topic.
  pub create_topic_iff : ((create_topic now tm pm name n r).0 ≡ none) ↔ IsCreatable tm pm name n
  create_topic_iff =
      create_cases (λ o. (o.0 ≡ none) ↔ IsCreatable tm pm name n)
        (λ e no_. (λ q. cc, λ c. absurd (no_ c))) (λ e no_ _. (λ q. cc, λ c. absurd (no_ c)))
        (λ c. (λ _. c, λ _. refl))

  -- What a call of `CreateTopic` changes, in terms of the two tables.
  abbrev pub Effect : Option Error × TopicManager × PartitionManager → Type 0
  Effect (none, tm', pm') =
      (t : Bytes)
      → (get t tm'.topics
          ≡ (if bytes_eq name t then some (new_info now tm name n r) else get t tm.topics))
        × (get t pm'.partitions ≡ (if bytes_eq name t then some n else get t pm.partitions))
  Effect (some e, tm', pm') = (pm' ≡ pm) × ((t : Bytes) → get t tm'.topics ≡ get t tm.topics)

  -- If `CreateTopic` succeeds, the topic is in both tables, with its metadata and its count, and
  -- every other topic is as it was. If it fails, both managers have the topics that they had.
  pub create_topic-Effect : Effect (create_topic now tm pm name n r)
  create_topic-Effect =
      create_cases Effect (λ e _. (refl, λ t. refl))
        (λ e _ q. (
          refl,
          λ t. ground (
            arith,
            get-delete name t with_metadata.topics,
            get-put name t (new_info now tm name n r) tm.topics,
            bytes_eq_iff name t,
          ),
        ))
        (λ c t.
          let (_, tables, _) = create_topic_lem pm name n c.acceptable.positive c.no_partitions in
          (
            get-put name t (new_info now tm name n r) tm.topics,
            ap (get t) tables ∙ get-put name t n pm.partitions,
          ))
