-- ===== src/Storage.antt =====
-- internal/storage/storage.go: the stored message, the interface that the broker depends on, and a
-- contract for its backends.
pub mod Memory
pub mod Redis
pub mod Postgres
pub mod RoundTrip
use go_pub_sub.Prelude.{
  ℕ, ◌≡◌, Bool, ◌&&◌, Option, none, List, [], ◌∷◌, ◌++◌, length, drop, ◌==◌, if◌then◌else◌,
}
use go_pub_sub.Prelude.Int.{ℤ, pos, eq_ℤ, int32_of}
use go_pub_sub.Text.{Bytes, bytes_eq}
use go_pub_sub.Go.{Error, Result, ok}

-- `ts` counts from the zero time, at which `Ts.IsZero()` holds.
pub record Message : Type 0 where
  pub topic : Bytes
  pub partition : ℤ
  pub offset : ℤ
  pub key : Bytes
  pub value : Bytes
  pub headers : List (Bytes × Bytes)
  pub ts : ℕ

-- A method takes the backend's state, and `append` the time that `time.Now()` returns. It returns
-- the message too, since it writes through the caller's pointer. A result `error` is an `Option`.
pub record LogStorage : Type 1 where
  pub State : Type 0
  pub append : ℕ → State → Bytes → ℤ → Message → Result ℤ × Message × State
  pub read : State → Bytes → ℤ → ℤ → ℤ → Result (List Message)
  pub commit_offset : State → Bytes → Bytes → ℤ → ℤ → Option Error × State
  pub get_committed_offset : State → Bytes → Bytes → ℤ → ℤ × Option Error
  pub close : State → Option Error × State

-- the test for one topic and partition
abbrev pub same_log : Bytes → ℤ → Bytes → ℤ → Bool
same_log t p t' p' = bytes_eq t t' && eq_ℤ p p'

-- the test for one group, topic and partition
abbrev pub same_commit : Bytes → Bytes → ℤ → Bytes → Bytes → ℤ → Bool
same_commit g t p g' t' p' = bytes_eq g g' && same_log t p t' p'

-- What a backend keeps of the message `m` as number `n` of its log.
pub record IsStored (now n : ℕ) (m stored : Message) : Type 0 where
  pub topic : stored.topic ≡ m.topic
  pub partition : stored.partition ≡ m.partition
  pub offset : stored.offset ≡ pos n
  pub key : stored.key ≡ m.key
  pub value : stored.value ≡ m.value
  pub headers : stored.headers ≡ m.headers
  pub ts : stored.ts ≡ (if m.ts == 0 then now else m.ts)

-- The outcome of appending `m` to one of the logs that `before` gives: `kept` joins that log. The
-- message that is returned is the same but for its offset, which a backend need not write.
pub record IsAppended (now : ℕ) (topic : Bytes) (partition : ℤ) (m : Message)
    (before after : Bytes → ℤ → List Message) (r : Result ℤ) (m' : Message) : Type 0 where
  pub result : r ≡ ok (pos (length (before topic partition)))
  pub kept : Message
  pub stored : IsStored now (length (before topic partition)) m kept
  pub returned : record m' { offset = pos (length (before topic partition)) } ≡ kept
  pub logs :
      (t : Bytes) (p : ℤ)
      → after t p ≡ (if same_log topic partition t p then before t p ++ kept ∷ [] else before t p)

-- What the comments of the interface promise, in terms of two views of the state: the log of each
-- partition, and the committed offsets. The comments ask for offsets that grow; here they are the
-- indices of the log, as in the in-memory and the Redis store, not in the Postgres store. `Open` holds of a state whose backend answers, `IsGroup` of
-- the group names that the backend keeps apart, and `IsMessage` and `IsOffset` of what it can
-- store.
pub record Contract (L : LogStorage) : Type 1 where
  pub Open : L.State → Type 0
  pub IsGroup : Bytes → Type 0
  pub IsMessage : Message → Type 0
  pub IsOffset : ℤ → Type 0
  pub log : L.State → Bytes → ℤ → List Message
  pub committed : L.State → Bytes → Bytes → ℤ → ℤ
  pub append_lem :
      (now : ℕ) (s : L.State) (t : Bytes) (p : ℤ) (m : Message)
      → Open s
      → IsMessage m
      → m.partition ≡ int32_of p
      → let (r, m', s') = L.append now s t p m in
        Open s'
        × IsAppended now t p m (log s) (log s') r m'
        × ((g' t' : Bytes) (p' : ℤ) → committed s' g' t' p' ≡ committed s g' t' p')
  pub read_lem :
      (s : L.State) (t : Bytes) (p : ℤ) (n : ℕ)
      → Open s
      → L.read s t p (pos n) (pos 0) ≡ ok (drop n (log s t p))
  pub commit_lem :
      (s : L.State) (g t : Bytes) (p offset : ℤ)
      → Open s
      → IsGroup g
      → IsOffset offset
      → let (e, s') = L.commit_offset s g t p offset in
        Open s'
        × (e ≡ none)
        × ((t' : Bytes) (p' : ℤ) → log s' t' p' ≡ log s t' p')
        × ((g' t' : Bytes) (p' : ℤ)
            → IsGroup g'
            → committed s' g' t' p'
              ≡ (if same_commit g t p g' t' p' then offset else committed s g' t' p'))
  pub get_committed_lem :
      (s : L.State) (g t : Bytes) (p : ℤ)
      → Open s
      → IsGroup g
      → L.get_committed_offset s g t p ≡ (committed s g t p, none)
