-- ===== src/Topics.antt =====
-- internal/broker/topic_manager.go: `TopicManager`. Its partition manager is passed to
-- `create_topic`, since the broker shares it; a lock makes each of the other methods one step.
pub mod Create
pub mod Consistent
pub mod Race
pub mod Validate
use go_pub_sub.Prelude.{
  ℕ, Bool, true, false, ◌||◌, Option, none, some, List, [], ◌∷◌, map, if◌then◌else◌,
}
use go_pub_sub.Prelude.Int.{ℤ, pos, ltb_ℤ, leb_ℤ}
use go_pub_sub.Text.{Bytes, is_empty}
use go_pub_sub.GoMap.{GoMap, RangeOrder, get, put, delete}
use go_pub_sub.Go.{
  Error, topic_name_required, partitions_not_positive, partitions_out_of_range,
  topic_already_exists, create_failed, topic_required, unknown_topic, invalid_partition,
}
use go_pub_sub.Partitions
use go_pub_sub.Partitions.{PartitionManager}

pub record TopicInfo : Type 0 where
  pub name : Bytes
  pub partitions : ℤ
  pub retention_ms : ℤ
  pub created_at : ℕ

pub record TopicManager : Type 0 where
  pub topics : GoMap TopicInfo
  pub min_partitions : ℤ
  pub max_partitions : ℤ
  pub default_retention_ms : ℤ

abbrev pub new_topic_manager : TopicManager
new_topic_manager = record {
  topics = [];
  min_partitions = pos 1;
  max_partitions = pos 1024;
  default_retention_ms = pos 604800000;
}

-- the checks of `CreateTopic` that read no topic
check_arguments : TopicManager → Bytes → ℤ → Option Error
check_arguments tm name partitions =
    if is_empty name
    then some topic_name_required
    else if leb_ℤ partitions (pos 0)
    then some partitions_not_positive
    else if ltb_ℤ partitions tm.min_partitions || ltb_ℤ tm.max_partitions partitions
    then some (partitions_out_of_range tm.min_partitions tm.max_partitions)
    else none

abbrev pub new_info : ℕ → TopicManager → Bytes → ℤ → ℤ → TopicInfo
new_info now tm name partitions retention_ms = record {
  name = name;
  partitions = partitions;
  retention_ms = if leb_ℤ retention_ms (pos 0) then tm.default_retention_ms else retention_ms;
  created_at = now;
}

-- What `CreateTopic` does up to its first unlock: the checks, and the new metadata.
unfoldable pub begin_create : ℕ → TopicManager → Bytes → ℤ → ℤ → Option Error × TopicManager
unfolding check_arguments
begin_create now tm name partitions retention_ms = elim (check_arguments tm name partitions) [
  | some e ↦ (some e, tm)
  | none ↦ elim (get name tm.topics) [
    | some _ ↦ (some (topic_already_exists name), tm)
    | none ↦ (
      none,
      record tm { topics = put name (new_info now tm name partitions retention_ms) tm.topics },
    )
  ]
]

-- the end of `CreateTopic`, on what `pm.CreateTopic` returned
unfoldable pub undo_or_keep :
    TopicManager
    → Bytes
    → Option Error × PartitionManager
    → Option Error × TopicManager × PartitionManager
undo_or_keep tm name (none, pm) = (none, tm, pm)
undo_or_keep tm name (some e, pm) =
    (some (create_failed e), record tm { topics = delete name tm.topics }, pm)

-- What it does from there on: the partitions, or the removal of the metadata.
unfoldable pub finish_create :
    TopicManager → PartitionManager → Bytes → ℤ → Option Error × TopicManager × PartitionManager
finish_create tm pm name partitions =
    undo_or_keep tm name (Partitions.create_topic pm name partitions)

unfoldable pub after_begin :
    PartitionManager
    → Bytes
    → ℤ
    → Option Error × TopicManager
    → Option Error × TopicManager × PartitionManager
after_begin pm name partitions (some e, tm) = (some e, tm, pm)
after_begin pm name partitions (none, tm) = finish_create tm pm name partitions

-- `CreateTopic` with no other call between its two parts.
unfoldable pub create_topic :
    ℕ
    → TopicManager
    → PartitionManager
    → Bytes
    → ℤ
    → ℤ
    → Option Error × TopicManager × PartitionManager
create_topic now tm pm name partitions retention_ms =
    after_begin pm name partitions (begin_create now tm name partitions retention_ms)

-- The second result of Go's pair is whether the first is there.
abbrev pub get_topic_info : TopicManager → Bytes → Option TopicInfo
get_topic_info tm name = get name tm.topics

abbrev is_some : Option TopicInfo → Bool
is_some none = false
is_some (some _) = true

unfoldable pub topic_exists : TopicManager → Bytes → Bool
topic_exists tm name = is_some (get name tm.topics)

-- `order` is the runtime's choice.
unfoldable pub list_topics : RangeOrder → TopicManager → List TopicInfo
list_topics order tm = map (λ e. e.1) (order.range TopicInfo tm.topics)

unfoldable pub validate_partition : TopicManager → Bytes → ℤ → Option Error
validate_partition tm name partition =
    if is_empty name then some topic_required else elim (get name tm.topics) [
      | none ↦ some (unknown_topic name)
      | some ti ↦
          if ltb_ℤ partition (pos 0) || leb_ℤ ti.partitions partition
          then some (invalid_partition partition name ti.partitions)
          else none
    ]
