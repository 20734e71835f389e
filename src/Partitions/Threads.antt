-- ===== src/Partitions/Threads.antt =====
-- Calls of `Append` of internal/broker/partition_manager.go at the same time, on the store of
-- internal/storage/redis_store.go: each takes its partition's mutex around the two commands of the
-- store's `Append`. Other calls may change the tables of the manager in between.
pub mod Calls
pub mod Offsets
pub mod Returns
use go_pub_sub.Prelude.{ℕ, ◌<◌, ◌≡◌, Option, none, some, [], ◌==◌, if◌then◌else◌}
use go_pub_sub.Runs.{set_at}
use go_pub_sub.Prelude.Int.{ℤ, int32_of}
use go_pub_sub.Text.{Bytes}
use go_pub_sub.Go.{Error, Result, err}
use go_pub_sub.Storage.{Message}
use go_pub_sub.Storage.Redis.{RedisStore, push, list_offset}
use go_pub_sub.Storage.Redis.Server.{Redis, Codec}
use go_pub_sub.Partitions.{PartitionManager, get_lock}
use go_pub_sub.Partitions.Locks.{Keeps}

-- a call's topic and chosen partition, its message, and the time that it takes from the clock
pub record Job : Type 0 where
  pub topic : Bytes
  pub partition : ℤ
  pub message : Message
  pub now : ℕ

-- Where a call is: before `getLock`, before `lock.Lock()`, before the RPUSH, before the LLEN with
-- the message as it was written, or returned, with its mutex given back.
pub data Phase : Type 0 where
  starting : Phase
  waits : ℕ → Phase
  locked : ℕ → Phase
  pushed : ℕ → Message → Phase
  returned : Message → Result ℤ → Phase

-- msg.Partition = int32(part)
abbrev pub placed : Job → Message
placed j = record j.message { partition = int32_of j.partition }

module _ (R : Redis) (J : Codec) (r : RedisStore) (job : ℕ → Job) (calls : ℕ) where
  -- There are `calls` calls, numbered from 0. `owner` tells which call has a mutex, where Go keeps
  -- whether one has.
  pub record Threads : Type 0 where
    pub pm : PartitionManager
    pub store : R.State
    pub owner : ℕ → Option ℕ
    pub phase : ℕ → Phase

  -- defer lock.Unlock()
  unfoldable pub return_from : ℕ → ℕ → Message → Result ℤ → Threads → Threads
  return_from i l m result s = record s {
    owner = set_at l none s.owner;
    phase = set_at i (returned m result) s.phase;
  }

  -- What the RPUSH returns: on an error the call returns, and gives the mutex back.
  unfoldable pub after_rpush : ℕ → ℕ → Threads → Option Error × Message × R.State → Threads
  after_rpush i l s (none, m, st) = record s { store = st; phase = set_at i (pushed l m) s.phase }
  after_rpush i l s (some e, m, st) = return_from i l m (err e) (record s { store = st })

  pub data Step (s : Threads) : Threads → Type 0 where
    -- lock := pm.getLock(topic, int32(part))
    gets :
        (i : ℕ)
        → i < calls
        → s.phase i ≡ starting
        → Step s (record s {
          pm = (get_lock s.pm (job i).topic (int32_of (job i).partition)).1;
          phase =
              set_at i (waits (get_lock s.pm (job i).topic (int32_of (job i).partition)).0) s.phase;
        })
    -- lock.Lock()
    locks :
        (i l : ℕ)
        → i < calls
        → s.phase i ≡ waits l
        → s.owner l ≡ none
        → Step s
            (record s { owner = set_at l (some i) s.owner; phase = set_at i (locked l) s.phase })
    -- the store's `Append` up to the RPUSH
    pushes :
        (i l : ℕ)
        → i < calls
        → s.phase i ≡ locked l
        → Step s (
            after_rpush i l s
              (push R J (job i).now r s.store (job i).topic (job i).partition (placed (job i))))
    -- the LLEN
    measures :
        (i l : ℕ) (m : Message)
        → i < calls
        → s.phase i ≡ pushed l m
        → Step s (return_from i l m (list_offset R J r s.store (job i).topic (job i).partition) s)

  abbrev pub init_threads : PartitionManager → R.State → Threads
  init_threads pm st = record { pm = pm; store = st; owner = λ _. none; phase = λ _. starting }

  pub data Reach (pm : PartitionManager) (st : R.State) : Threads → Type 0 where
    start : Reach pm st (init_threads pm st)
    stepped : {s t : Threads} → Reach pm st s → Step s t → Reach pm st t
    -- another call that keeps the mutexes of the table, such as `CreateTopic`
    changed :
        {s : Threads}
        → Reach pm st s
        → (pm' : PartitionManager) → Keeps s.pm pm'
        → Reach pm st (record s { pm = pm' })
