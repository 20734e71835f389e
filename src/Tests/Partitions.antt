-- ===== src/Tests/Partitions.antt =====
-- The theorems on internal/broker/partition_manager.go, on a manager with one topic.
use go_pub_sub.Prelude.{ℕ, ◌<◌, ◌≡◌, ◌↔◌, ◌∙◌, ap, refl, some, [], arith}
use go_pub_sub.Prelude.Int.{pos, negsuc}
use go_pub_sub.Text.{bytes_eq}
use go_pub_sub.GoMap.{get, get-put_self}
use go_pub_sub.Go.{ok}
use go_pub_sub.Storage.Memory.Backend.{memory, memory-Contract}
use go_pub_sub.Partitions.{PartitionManager, new_partition_manager, create_topic, get_lock, append}
use go_pub_sub.Partitions.Choice.{turn, turns_fair}
use go_pub_sub.Partitions.Locks.{IsValid, create_topic-IsValid, create_topic_lem}
use go_pub_sub.Partitions.Mutex.{get_lock-IsValid}
use go_pub_sub.Partitions.Registered.{entry, get-append_lem}
use go_pub_sub.Partitions.Exclusive.{append-Calls, Calls, start, creates, get_lock_exclusive}
use go_pub_sub.Partitions.Append.{partitions-get_lock, Outcome, append-Outcome}
use go_pub_sub.Tests.{orders, message, two_messages}

empty-IsValid : IsValid new_partition_manager
unfolding get
empty-IsValid = record {
  below = λ k l e. absurd (cc e);
  apart = λ k j l e f. absurd (cc e);
  owned = λ k l e. absurd (cc e);
  counted = λ t n e. absurd (cc e);
}

-- the manager with `orders`, which has three partitions
abbrev pub with_orders : PartitionManager
with_orders = (create_topic new_partition_manager orders (pos 3)).1

pub with_orders-IsValid : IsValid with_orders
with_orders-IsValid =
    create_topic-IsValid new_partition_manager orders (pos 3) (omega arith) empty-IsValid

pub with_orders_lem : get orders with_orders.partitions ≡ some (pos 3)
with_orders_lem =
    ap (get orders)
      (create_topic_lem new_partition_manager orders (pos 3) (omega arith) (unfold get in refl)).1
    ∙ get-put_self orders (pos 3) []

turns_fair_example :
    (i : ℕ) × (i < 3)
    × (turn new_partition_manager orders 3 i ≡ ok (pos 2))
    × ((j : ℕ) → j < 3 → turn new_partition_manager orders 3 j ≡ ok (pos 2) → j ≡ i)
turns_fair_example =
    turns_fair new_partition_manager orders 3 0 2 (unfold get in refl) (omega arith) (omega arith)

created : Calls new_partition_manager with_orders
created = creates orders (pos 3) start (omega arith)

-- the manager after a first call of `getLock`, and after an append that follows
abbrev locked : PartitionManager
locked = (get_lock with_orders orders (pos 0)).1

abbrev appended : PartitionManager
appended = (append memory 7 locked two_messages orders (pos 2) [] message).2

locked_lem : get orders locked.partitions ≡ some (pos 3)
locked_lem = partitions-get_lock with_orders orders orders (pos 0) ∙ with_orders_lem

get_lock_exclusive_example :
    ((get_lock with_orders orders (pos 0)).0 ≡ (get_lock appended orders (pos 1)).0)
    ↔ ((orders ≡ orders) × (pos 0 ≡ pos 1))
get_lock_exclusive_example =
    get_lock_exclusive with_orders appended orders orders (pos 0) (pos 1) (pos 3) (pos 3) created
      with_orders_lem
      (append-Calls memory 7 two_messages orders message locked locked (pos 2) []
        (get_lock-IsValid with_orders orders (pos 0) (pos 3) with_orders_lem with_orders-IsValid)
        start)
      (get-append_lem memory 7 locked two_messages orders orders (pos 2) [] message
        ∙ ap (entry (bytes_eq orders orders)) locked_lem
        ∙ unfold bytes_eq in refl)

append-Outcome_example :
    (n : ℕ) × Outcome memory memory-Contract 7 new_partition_manager two_messages orders
      (negsuc 0)
      message
      n
      (append memory 7 new_partition_manager two_messages orders (negsuc 0) [] message)
append-Outcome_example =
    append-Outcome memory memory-Contract 7 0 new_partition_manager two_messages orders (negsuc 0)
      [] message empty-IsValid (unfold get in refl) (omega arith) refl (λ p. tt)
