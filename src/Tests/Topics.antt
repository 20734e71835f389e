-- ===== src/Tests/Topics.antt =====
-- The theorems on internal/broker/topic_manager.go, on a manager with no topic.
use go_pub_sub.Prelude.{ℕ, ◌≡◌, ◌≢◌, ◌↔◌, refl, true, false, none, some, [], arith}
use go_pub_sub.Prelude.Int.{ℤ, pos, negsuc}
use go_pub_sub.GoMap.{get}
use go_pub_sub.Go.{topic_already_exists, create_failed}
use go_pub_sub.Storage.Memory.Backend.{memory}
use go_pub_sub.Partitions
use go_pub_sub.Partitions.{PartitionManager, new_partition_manager}
use go_pub_sub.Topics.{new_topic_manager, begin_create, finish_create, create_topic, topic_exists}
use go_pub_sub.Topics.Create.{IsAcceptable, IsCreatable, create_topic_iff}
use go_pub_sub.Topics.Consistent.{IsConsistent}
use go_pub_sub.Topics.Race.{publish_in_create}
use go_pub_sub.Tests.{orders, message, two_messages}

create_topic_iff_example :
    ((create_topic 7 new_topic_manager new_partition_manager orders (pos 3) (pos 0)).0 ≡ none)
    ↔ IsCreatable new_topic_manager new_partition_manager orders (pos 3)
create_topic_iff_example =
    create_topic_iff 7 new_topic_manager new_partition_manager orders (pos 3) (pos 0)

empty-IsConsistent : IsConsistent new_topic_manager new_partition_manager
unfolding get
empty-IsConsistent t ti e = absurd (cc e)

acceptable : IsAcceptable new_topic_manager orders (pos 3)
acceptable = record {
  named = λ e. cc;
  positive = omega arith;
  enough = omega arith;
  few = omega arith;
}

publish_in_create_example :
    let (e, begun) = begin_create 7 new_topic_manager orders (pos 3) (pos 0) in
    let pm' =
      (Partitions.append memory 8 new_partition_manager two_messages orders
        (negsuc 0)
        []
        message).2 in
    let (e', tm', pm'') = finish_create begun pm' orders (pos 3) in
    (e ≡ none)
    × (topic_exists begun orders ≡ true)
    × (e' ≡ some (create_failed (topic_already_exists orders)))
    × (topic_exists tm' orders ≡ false)
    × ((later : ℕ) (n' r' : ℤ) → (create_topic later tm' pm'' orders n' r').0 ≢ none)
publish_in_create_example =
    publish_in_create memory 7 8 new_topic_manager new_partition_manager two_messages orders (pos 3)
      (pos 0) (negsuc 0) [] message acceptable (unfold get in refl) (unfold get in refl)
