-- ===== src/Topics/Race.antt =====
-- A publish between the two halves of `CreateTopic` (internal/broker/topic_manager.go): the topic
-- manager gives up its lock after it has written the metadata, and `PartitionManager.Append`
-- creates a topic that it does not know.
use go_pub_sub.Prelude.{ℕ, ◌≡◌, ◌≢◌, refl, ap, ◌∙◌, true, false, none, some}
use go_pub_sub.Prelude.Int.{ℤ, pos, ◌≤ℤ◌}
use go_pub_sub.Text.{Bytes, bytes_eq_refl}
use go_pub_sub.GoMap.{get, get-put, get-delete}
use go_pub_sub.Go.{topic_already_exists, create_failed}
use go_pub_sub.Storage.{Message, LogStorage}
use go_pub_sub.Partitions
use go_pub_sub.Partitions.{PartitionManager}
use go_pub_sub.Partitions.Registered.{get-append_lem}
use go_pub_sub.Topics.{
  TopicManager, begin_create, undo_or_keep, finish_create, create_topic, topic_exists,
}
use go_pub_sub.Topics.Create.{
  IsAcceptable, with_metadata, undone, begin_create_lem, pm_create_some, create_topic_iff,
}

-- A topic that the partition manager has and the topic manager lacks cannot be created.
pub stranded_forever :
    (now : ℕ) (tm : TopicManager) (pm : PartitionManager) (name : Bytes) (n r z : ℤ)
    → get name pm.partitions ≡ some z
    → (create_topic now tm pm name n r).0 ≢ none
stranded_forever now tm pm name n r z e q =
    cc (e, ((create_topic_iff now tm pm name n r).0 q).no_partitions)

module _ (now : ℕ) (tm : TopicManager) (pm pm' : PartitionManager) (name : Bytes) (n r : ℤ) where
  finish_taken :
      (z : ℤ)
      → pos 1 ≤ℤ n
      → get name pm'.partitions ≡ some z
      → finish_create (with_metadata now tm pm name n r) pm' name n
        ≡ (some (create_failed (topic_already_exists name)), undone now tm pm name n r, pm')
  unfolding finish_create undo_or_keep
  finish_taken z lo e =
      ap (undo_or_keep (with_metadata now tm pm name n r) name) (pm_create_some pm' name n z lo e)

  shows : topic_exists (with_metadata now tm pm name n r) name ≡ true
  unfolding topic_exists
  shows = simp (get-put, bytes_eq_refl)

  gone : topic_exists (undone now tm pm name n r) name ≡ false
  unfolding topic_exists
  gone = simp (get-delete, bytes_eq_refl)

-- Where a topic is new and its creation acceptable: once its metadata is written, it shows as
-- existing; if a publish to it, of any message and with any store, comes before its partitions are
-- made, then the creation fails and takes the metadata back, and no later creation of that topic
-- succeeds, whatever its arguments.
pub publish_in_create :
    (L : LogStorage) (now now' : ℕ) (tm : TopicManager) (pm : PartitionManager) (st : L.State)
    (name : Bytes) (n r hint : ℤ) (key : Bytes) (m : Message)
    → IsAcceptable tm name n
    → get name tm.topics ≡ none
    → get name pm.partitions ≡ none
    → let (e, begun) = begin_create now tm name n r in
      let pm' = (Partitions.append L now' pm st name hint key m).2 in
      let (e', tm', pm'') = finish_create begun pm' name n in
      (e ≡ none)
      × (topic_exists begun name ≡ true)
      × (e' ≡ some (create_failed (topic_already_exists name)))
      × (topic_exists tm' name ≡ false)
      × ((later : ℕ) (n' r' : ℤ) → (create_topic later tm' pm'' name n' r').0 ≢ none)
publish_in_create L now now' tm pm st name n r hint key m a no_metadata no_partitions =
    let pm' = (Partitions.append L now' pm st name hint key m).2 in
    let taken : get name pm'.partitions ≡ some (pos 1) =
      get-append_lem L now' pm st name name hint key m ∙ rw (bytes_eq_refl, no_partitions) in
    rw
      (
        begin_create_lem now tm pm name n r a no_metadata,
        finish_taken now tm pm pm' name n r (pos 1) a.positive taken,
      )
      (
        refl,
        shows now tm pm pm' name n r,
        refl,
        gone now tm pm pm' name n r,
        λ later n' r'.
            stranded_forever later (undone now tm pm name n r) pm' name n' r' (pos 1) taken,
      )
