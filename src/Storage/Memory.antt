-- ===== src/Storage/Memory.antt =====
-- internal/storage/memory_store.go: `InMemoryStore`. The lock makes each method one step; a nil map
-- reads as the empty one, and `closed` guards every write.
pub mod Keys
pub mod Log
pub mod Commits
pub mod Backend
use go_pub_sub.Prelude.{
  ℕ, ◌+◌, ◌-◌, Bool, true, false, ◌&&◌, Option, none, some, List, [], ◌∷◌, ◌++◌, length, take, drop,
  ltb, leb, ◌==◌, if◌then◌else◌,
}
use go_pub_sub.Prelude.Int.{ℤ, pos, negsuc, pos_part, ◌+ℤ◌, ltb_ℤ, int32_of, int64_of}
use go_pub_sub.Text.{Bytes}
use go_pub_sub.GoMap.{GoMap, get, put}
use go_pub_sub.Go.{Error, Result, ok, err, panic, store_closed}
use go_pub_sub.Storage.{Message}
use Keys.{tkey, ckey}

pub record InMemoryStore : Type 0 where
  pub logs : GoMap (List Message)
  pub commits : GoMap ℤ
  pub closed : Bool

abbrev pub new_in_memory_store : InMemoryStore
new_in_memory_store = record { logs = []; commits = []; closed = false }

-- s.logs[k], which is nil for a missing key
abbrev pub log_at : Option (List Message) → List Message
log_at none = []
log_at (some arr) = arr

unfoldable pub stamp : ℕ → ℤ → ℕ → Message → Message
stamp now partition len msg = record msg {
  partition = int32_of partition;
  offset = pos len;
  ts = if msg.ts == 0 then now else msg.ts;
}

unfoldable pub append : ℕ → InMemoryStore → Bytes → ℤ → Message → Result ℤ × Message × InMemoryStore
append now s topic partition msg =
    if s.closed
    then (err store_closed, msg, s)
    else let k = tkey topic partition in
      let arr = log_at (get k s.logs) in
      let msg' = stamp now partition (length arr) msg in
      (ok msg'.offset, msg', record s { logs = put k (arr ++ msg' ∷ []) s.logs })

-- the end of the slice that `Read` copies; `int(offset)+max` is computed in 64 bits
slice_end : ℕ → ℕ → ℤ → ℤ
slice_end len offset max =
    if ltb_ℤ (pos 0) max && ltb_ℤ (int64_of (pos offset +ℤ max)) (pos len)
    then int64_of (pos offset +ℤ max)
    else pos len

-- make([]*Message, end-int(offset)) and copy(res, arr[offset:end]). An `end` in front of the offset
-- panics, in one call or the other: `end-int(offset)` is then negative, or it wraps round to a length
-- that `make` can refuse as too large, and the slice expression has its bounds in the wrong order.
copy_slice : List Message → ℕ → ℤ → Result (List Message)
copy_slice arr offset (pos end) =
    if leb offset end then ok (take (end - offset) (drop offset arr)) else panic
copy_slice arr offset (negsuc end) = panic

unfoldable pub read : InMemoryStore → Bytes → ℤ → ℤ → ℤ → Result (List Message)
unfolding slice_end copy_slice
read s topic partition offset max =
    if s.closed
    then err store_closed
    else let arr = log_at (get (tkey topic partition) s.logs) in
      let from = pos_part offset in
      if leb (length arr) from then ok [] else copy_slice arr from (slice_end (length arr) from max)

unfoldable pub commit_offset : InMemoryStore → Bytes → Bytes → ℤ → ℤ → Option Error × InMemoryStore
commit_offset s group topic partition offset =
    if s.closed
    then (some store_closed, s)
    else (none, record s { commits = put (ckey group topic partition) offset s.commits })

-- v, ok := s.commits[k]
abbrev pub committed_or_none : Option ℤ → ℤ × Option Error
committed_or_none none = (negsuc 0, none)
committed_or_none (some v) = (v, none)

unfoldable pub get_committed_offset : InMemoryStore → Bytes → Bytes → ℤ → ℤ × Option Error
get_committed_offset s group topic partition =
    if s.closed
    then (negsuc 0, some store_closed)
    else committed_or_none (get (ckey group topic partition) s.commits)

unfoldable pub close : InMemoryStore → Option Error × InMemoryStore
close s =
    if s.closed then (none, s) else (none, record s { closed = true; logs = []; commits = [] })
