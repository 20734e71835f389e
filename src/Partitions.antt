-- ===== src/Partitions.antt =====
-- internal/broker/partition_manager.go: `PartitionManager`. The store that it points to is passed
-- to each method, since the broker and the group manager share it. A mutex is a number, and a
-- counter behind a pointer is an entry of `rr`; no two topics share one.
pub mod Choice
pub mod Locks
pub mod Mutex
pub mod Exclusive
pub mod Append
pub mod Registered
pub mod Threads
use Prim.Native.Nat.{bit_xor}
use go_pub_sub.Prelude.{
  ℕ, zero, suc, ◌+◌, ◌*◌, ◌%◌, ◌^◌, Bool, true, false, Option, none, some, List, [], ◌∷◌,
  if◌then◌else◌,
}
use go_pub_sub.Prelude.Int.{
  ℤ, pos, negsuc, pos_part, neg_part, sub_ℕ, ◌+ℤ◌, ltb_ℤ, leb_ℤ, eq_ℤ, int32_of, int64_of,
}
use go_pub_sub.Text.{Bytes, is_empty}
use go_pub_sub.GoMap.{GoMap, get, put}
use go_pub_sub.Go.{
  Error, Result, ok, err, panic, partitions_not_positive, topic_already_exists, invalid_hint,
}
use go_pub_sub.Storage.{Message, LogStorage}
use go_pub_sub.Storage.Memory.Keys.{tkey}

pub record PartitionManager : Type 0 where
  pub partitions : GoMap ℤ
  pub rr : GoMap ℤ
  pub locks : GoMap ℕ
  pub next_mutex : ℕ

abbrev pub new_partition_manager : PartitionManager
new_partition_manager = record { partitions = []; rr = []; locks = []; next_mutex = 0 }

-- The same format as the store's `tkey`.
abbrev pub tp_key : Bytes → ℤ → Bytes
tp_key topic partition = tkey topic partition

-- pm.locks[key] = &sync.Mutex{}
pub new_lock : PartitionManager → Bytes → PartitionManager
new_lock pm key = record pm {
  locks = put key pm.next_mutex pm.locks;
  next_mutex = suc pm.next_mutex;
}

-- for p := 0; p < partitions; p++, with `n` rounds left
init_locks : ℕ → ℕ → Bytes → PartitionManager → PartitionManager
init_locks zero p topic pm = pm
init_locks (suc n) p topic pm =
    init_locks n (p + 1) topic (new_lock pm (tp_key topic (int32_of (pos p))))

register : PartitionManager → Bytes → ℤ → PartitionManager
unfolding init_locks new_lock
register pm topic partitions =
    init_locks (pos_part partitions) 0 topic
      (record pm { partitions = put topic partitions pm.partitions; rr = put topic (pos 0) pm.rr })

unfoldable pub create_topic : PartitionManager → Bytes → ℤ → Option Error × PartitionManager
unfolding register
create_topic pm topic partitions =
    if leb_ℤ partitions (pos 0)
    then (some partitions_not_positive, pm)
    else elim (get topic pm.partitions) [
      | some _ ↦ (some (topic_already_exists topic), pm)
      | none ↦ (none, register pm topic partitions)
    ]

abbrev pub or_zero : Option ℤ → ℤ
or_zero none = pos 0
or_zero (some n) = n

-- A missing key reads as 0.
abbrev pub get_partition_count : PartitionManager → Bytes → ℤ
get_partition_count pm topic = or_zero (get topic pm.partitions)

unfoldable pub get_lock : PartitionManager → Bytes → ℤ → ℕ × PartitionManager
unfolding new_lock
get_lock pm topic partition = elim (get (tp_key topic partition) pm.locks) [
  | some l ↦ (l, pm)
  | none ↦ (pm.next_mutex, new_lock pm (tp_key topic partition))
]

-- a % b of Go, whose sign is that of a; `b` is a positive partition count.
abbrev pub rem_ℤ : ℤ → ℤ → ℤ
rem_ℤ (pos a) b = pos (a % pos_part b)
rem_ℤ (negsuc a) b = sub_ℕ 0 (suc a % pos_part b)

-- hash/fnv's 32-bit FNV-1a, over the bytes written so far
fnv32a : ℕ → Bytes → ℕ
fnv32a h [] = h
fnv32a h (b ∷ key) = fnv32a ((bit_xor h b * 16777619) % 2 ^ 32) key

hash_to_partition : Bytes → ℤ → ℤ
unfolding fnv32a
hash_to_partition key partitions = int32_of (rem_ℤ (pos (fnv32a 2166136261 key)) partitions)

round_robin : PartitionManager → Bytes → ℤ → ℤ × PartitionManager
round_robin pm topic partitions =
    let n = int64_of (or_zero (get topic pm.rr) +ℤ pos 1) in
    (rem_ℤ n partitions, record pm { rr = put topic n pm.rr })

-- The partition that `Append` chooses: the hint, the hash of the key, or the next in turn.
unfoldable pub choose : PartitionManager → Bytes → ℤ → ℤ → Bytes → Result ℤ × PartitionManager
unfolding hash_to_partition round_robin
choose pm topic partitions hint key =
    if leb_ℤ (pos 0) hint
    then (if leb_ℤ partitions hint
        then (err (invalid_hint hint topic partitions), pm)
        else (ok hint, pm))
    else if is_empty key
    then (let (part, pm') = round_robin pm topic partitions in (ok part, pm'))
    else (ok (hash_to_partition key partitions), pm)

-- An unknown topic is created with one partition.
unfoldable pub ensure_topic : PartitionManager → Bytes → ℤ × PartitionManager
ensure_topic pm topic =
    let partitions = get_partition_count pm topic in
    if eq_ℤ partitions (pos 0) then (pos 1, (create_topic pm topic (pos 1)).1) else (partitions, pm)

module _ (L : LogStorage) where
  open L use {State}

  -- What `Append` returns, the message after its writes to it, and the two states.
  abbrev pub Appended : Type 0
  Appended = Result (ℤ × ℤ) × Message × PartitionManager × State

  unfoldable pub store_result : ℤ → Result ℤ → Result (ℤ × ℤ)
  store_result part (ok off) = ok (off, int32_of part)
  store_result part (err e) = err e
  store_result part panic = panic

  -- lock.Lock(), msg.Partition = int32(part), pm.store.Append(topic, part, msg)
  unfoldable pub append_to : ℕ → PartitionManager → State → Bytes → ℤ → Message → Appended
  append_to now pm st topic part msg =
      let (lock, pm') = get_lock pm topic (int32_of part) in
      let (r, msg', st') = L.append now st topic part (record msg { partition = int32_of part }) in
      (store_result part r, msg', pm', st')

  unfoldable pub chosen : ℕ → State → Bytes → Message → Result ℤ × PartitionManager → Appended
  chosen now st topic msg (ok part, pm) = append_to now pm st topic part msg
  chosen now st topic msg (err e, pm) = (err e, msg, pm, st)
  chosen now st topic msg (panic, pm) = (panic, msg, pm, st)

  unfoldable pub append : ℕ → PartitionManager → State → Bytes → ℤ → Bytes → Message → Appended
  append now pm st topic hint key msg =
      let (partitions, pm') = ensure_topic pm topic in
      chosen now st topic msg (choose pm' topic partitions hint key)
