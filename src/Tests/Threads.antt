-- ===== src/Tests/Threads.antt =====
-- Two calls of `Append` of internal/broker/partition_manager.go at the same time, on one partition.
use go_pub_sub.Prelude.{ℕ, zero, suc, ◌<◌, ◌≡◌, refl, true, some, [], arith, get_elem?}
use go_pub_sub.Prelude.Int.{pos}
use go_pub_sub.Runs.{Inevitable}
use go_pub_sub.Text.{codes, bytes_eq}
use go_pub_sub.Text.Decimal.{decimal}
use go_pub_sub.Storage.Memory.Keys.{tkey}
use go_pub_sub.GoMap.{get, put}
use go_pub_sub.Go.{ok}
use go_pub_sub.Storage.Redis.{make_list_key, with_ts, push, list_offset}
use go_pub_sub.Storage.Redis.Server.{IsEncodable}
use go_pub_sub.Partitions.{new_partition_manager, get_lock}
use go_pub_sub.Partitions.Threads.{
  Job, placed, Threads, Step, gets, locks, pushes, measures, Reach, start, stepped, after_rpush,
  return_from, init_threads,
}
use go_pub_sub.Partitions.Threads.Calls.{log_of}
use go_pub_sub.Partitions.Threads.Offsets.{offsets_apart}
use go_pub_sub.Partitions.Threads.Returns.{is_returned, all_return}
use go_pub_sub.Tests.{orders, message}
use go_pub_sub.Tests.Redis.{server, codec, store, server-IsServer, empty-IsOpen, reply_message}

abbrev job : ℕ → Job
job zero = record { topic = orders; partition = pos 0; message = message; now = 7 }
job (suc i) = record { topic = orders; partition = pos 0; message = reply_message; now = 7 }

fits : (i : ℕ) → IsEncodable codec (with_ts (job i).now (placed (job i)))
fits zero = (codes "hello", refl, refl)
fits (suc i) = (codes "bye", refl, refl)

-- Both calls have got the mutex's address; the second is the first to lock it.
abbrev interleaved :
    (s : Threads server codec store job 2) × Reach server codec store job 2 new_partition_manager []
      s
unfolding get put bytes_eq tkey decimal get_lock push list_offset after_rpush return_from
interleaved =
    let r0 : Reach server codec store job 2 new_partition_manager []
        (init_threads server codec store job 2 new_partition_manager []) =
      start in
    let r1 = stepped r0 (gets 0 (omega arith) refl) in
    let r2 = stepped r1 (gets 1 (omega arith) refl) in
    let r3 = stepped r2 (locks 1 0 (omega arith) refl refl) in
    let r4 = stepped r3 (pushes 1 0 (omega arith) refl) in
    let r5 = stepped r4 (measures 1 0 (with_ts 7 (placed (job 1))) (omega arith) refl) in
    let r6 = stepped r5 (locks 0 0 (omega arith) refl refl) in
    (_, stepped r6 (pushes 0 0 (omega arith) refl))

offsets_apart_example :
    (n : ℕ) × (ok (pos 0) ≡ ok (pos n))
    × (get_elem? (log_of server codec server-IsServer store job fits interleaved.0.store 1) n
        ≡ some (record (with_ts 7 (placed (job 1))) { offset = pos n }))
unfolding interleaved make_list_key
offsets_apart_example =
    offsets_apart server codec server-IsServer store job fits 2 new_partition_manager []
      interleaved.0 1 (with_ts 7 (placed (job 1))) (ok (pos 0)) empty-IsOpen interleaved.1 refl

all_return_example :
    Inevitable
      (Step server codec store job 2)
      (λ t. (i : ℕ) → i < 2 → is_returned (t.phase i) ≡ true)
      interleaved.0
all_return_example =
    all_return server codec store job 2 new_partition_manager [] interleaved.0 interleaved.1
