-- ===== src/Partitions/Mutex.antt =====
-- `getLock` of internal/broker/partition_manager.go.
use go_pub_sub.Prelude.{◌≡◌, refl, some, arith, Option-cases, inl, inr}
use go_pub_sub.Prelude.Int.{ℤ}
use go_pub_sub.Text.{Bytes, bytes_eq_iff, bytes_eq_refl}
use go_pub_sub.GoMap.{get, get-put}
use go_pub_sub.Partitions.{PartitionManager, tp_key, new_lock, get_lock}
use go_pub_sub.Partitions.Locks.{IsValid, Keeps, new_lock-IsValid}

-- `getLock` for a partition of a registered topic keeps the tables valid and every mutex.
pub get_lock-IsValid :
    (pm : PartitionManager) (t : Bytes) (p n : ℤ)
    → get t pm.partitions ≡ some n
    → IsValid pm
    → IsValid (get_lock pm t p).1
unfolding get_lock
get_lock-IsValid pm t p n r v = elim (Option-cases (get (tp_key t p) pm.locks)) [
  | inr (_, e) ↦ rw (e, get_lock) v
  | inl e ↦
      rw (e, get_lock)
        (new_lock-IsValid pm (tp_key t p) v
          (record { topic = t; partition = p; count = n; key = refl; registered = r }))
]

pub get_lock-Keeps : (pm : PartitionManager) (t : Bytes) (p : ℤ) → Keeps pm (get_lock pm t p).1
unfolding get_lock new_lock
get_lock-Keeps pm t p k l e =
    ground (arith, get-put (tp_key t p) k pm.next_mutex pm.locks, bytes_eq_iff (tp_key t p) k)

-- the lock that `getLock` returns is the one in the table afterwards
pub get_lock_lem :
    (pm : PartitionManager) (t : Bytes) (p : ℤ)
    → get (tp_key t p) (get_lock pm t p).1.locks ≡ some (get_lock pm t p).0
unfolding get_lock new_lock
get_lock_lem pm t p =
    ground
      (arith, get-put (tp_key t p) (tp_key t p) pm.next_mutex pm.locks, bytes_eq_refl (tp_key t p))
