-- ===== src/Storage/Memory/Log.antt =====
-- `Append` and `Read` of internal/storage/memory_store.go against the logs of the partitions.
use native.Mathlib.Decide.{dec_lt}
use go_pub_sub.Prelude.{
  ℕ, suc, ◌+◌, ◌-◌, ◌≤◌, ◌<◌, ◌^◌, ◌≡◌, refl, sym, ap, false, List, [], ◌∷◌, ◌++◌, arith, length,
  take, drop, take_all, drop_all, length-drop, Bool-cases, inl, inr, if◌then◌else◌, leb, ltb, ◌&&◌,
}
use go_pub_sub.Prelude.Int.{ℤ, pos, negsuc, pos_part, int32_of, ltb_ℤ}
use go_pub_sub.Text.{Bytes, bytes_eq, bytes_eq_iff}
use go_pub_sub.GoMap.{get, put, get-put}
use go_pub_sub.Go.{ok, panic}
use go_pub_sub.Storage.{Message, same_log, IsAppended}
use go_pub_sub.Storage.Memory.{InMemoryStore, log_at, stamp, append, read, slice_end, copy_slice}
use go_pub_sub.Storage.Memory.Keys.{tkey, tkey_eq}

-- what the store keeps of a partition
abbrev pub log : InMemoryStore → Bytes → ℤ → List Message
log s topic partition = log_at (get (tkey topic partition) s.logs)

-- The offsets of a log are its indices, from `n` on.
abbrev pub IsNumbered : ℕ → List Message → Type 0
IsNumbered n [] = Unit {0}
IsNumbered n (m ∷ ms) = (m.offset ≡ pos n) × IsNumbered (suc n) ms

pub record IsValid (s : InMemoryStore) : Type 0 where
  pub numbered : (k : Bytes) → IsNumbered 0 (log_at (get k s.logs))

IsNumbered-append :
    (n : ℕ) (ms : List Message) (m : Message)
    → IsNumbered n ms
    → m.offset ≡ pos (n + length ms)
    → IsNumbered n (ms ++ m ∷ [])
IsNumbered-append n [] m h e = (ground arith, tt)
IsNumbered-append n (x ∷ ms) m h e = (h.0, IsNumbered-append (suc n) ms m h.1 (ground arith))

-- A write at the key of one partition, seen from the key of another.
log-put :
    (s : InMemoryStore) (t t' : Bytes) (p p' : ℤ) (m : Message)
    → log_at (get (tkey t' p') (put (tkey t p) (log s t p ++ m ∷ []) s.logs))
      ≡ (if same_log t p t' p' then log s t' p' ++ m ∷ [] else log s t' p')
log-put s t t' p p' m =
    rw (get-put, ← tkey_eq) (ground (arith, bytes_eq_iff (tkey t p) (tkey t' p')))

-- An append to an open store gives the next offset of its partition, adds the stamped message at
-- the end of that partition's log, and leaves every other partition as it was.
pub append-IsAppended :
    (now : ℕ) (s : InMemoryStore) (t : Bytes) (p : ℤ) (m : Message)
    → s.closed ≡ false
    → m.partition ≡ int32_of p
    → let (r, m', s') = append now s t p m in
      (s'.closed ≡ false) × IsAppended now t p m (log s) (log s') r m'
unfolding append stamp
append-IsAppended now s t p m h e = rw h (
  refl,
  record {
    result = refl;
    kept = stamp now p (length (log s t p)) m;
    returned = refl;
    stored = record {
      topic = refl;
      partition = sym e;
      offset = refl;
      key = refl;
      value = refl;
      headers = refl;
      ts = refl;
    };
    logs = λ t' p'. log-put s t t' p p' (stamp now p (length (log s t p)) m);
  },
)

IsNumbered-stamp :
    (now : ℕ) (p : ℤ) (m : Message) (ms : List Message)
    → IsNumbered 0 ms
    → IsNumbered 0 (ms ++ stamp now p (length ms) m ∷ [])
unfolding stamp
IsNumbered-stamp now p m ms h =
    IsNumbered-append 0 ms (stamp now p (length ms) m) h (ap pos (omega arith))

IsNumbered-put :
    (k j : Bytes) (s : InMemoryStore) (ms : List Message)
    → IsNumbered 0 (log_at (get j s.logs))
    → IsNumbered 0 ms
    → IsNumbered 0 (log_at (get j (put k ms s.logs)))
IsNumbered-put k j s ms old new = elim (Bool-cases (bytes_eq k j)) [
  | inl same ↦ rw (get-put, same) new
  | inr other ↦ rw (get-put, other) old
]

-- Both outcomes of an append keep the offsets equal to the indices, in every partition.
pub append-IsValid :
    (now : ℕ) (s : InMemoryStore) (t : Bytes) (p : ℤ) (m : Message)
    → IsValid s
    → IsValid (append now s t p m).2
unfolding append
append-IsValid now s t p m v = elim (Bool-cases s.closed) [
  | inl closed ↦ simp closed v
  | inr open_ ↦ simp open_ (record {
    numbered = λ k.
        IsNumbered-put (tkey t p) k s _ (v.numbered k)
          (IsNumbered-stamp now p m (log s t p) (v.numbered (tkey t p)));
  })
]

-- the messages that `Read` is to return
abbrev pub slice : List Message → ℕ → ℤ → List Message
slice arr from max =
    if ltb_ℤ (pos 0) max then take (pos_part max) (drop from arr) else drop from arr

take_rest :
    (arr : List Message) (from n : ℕ)
    → length arr - from ≤ n
    → take n (drop from arr) ≡ drop from arr
take_rest arr from n h = take_all n (drop from arr) (omega (arith, length-drop from arr))

copy_slice-slice :
    (arr : List Message) (from : ℕ) (max : ℤ)
    → from + pos_part max < 2 ^ 63
    → from < length arr
    → copy_slice arr from (slice_end (length arr) from max) ≡ ok (slice arr from max)
unfolding copy_slice slice_end
copy_slice-slice arr from (negsuc k) fits h =
    ground (arith, take_rest arr from (length arr - from) (omega arith))
copy_slice-slice arr from (pos k) fits h =
    ground (arith, take_rest arr from (length arr - from) (omega arith), take_rest arr from k)

slice_past : (arr : List Message) (from : ℕ) (max : ℤ) → length arr ≤ from → slice arr from max ≡ []
slice_past arr from max h =
    ground (arith, drop_all from arr h, take_all (pos_part max) (drop from arr))

-- Unless `offset + max` passes 2^63, a read of an open store returns the messages from the offset
-- on (from the start, if it is negative), at most `max` of them if `max` is positive.
pub read-slice :
    (s : InMemoryStore) (t : Bytes) (p offset max : ℤ)
    → s.closed ≡ false
    → pos_part offset + pos_part max < 2 ^ 63
    → read s t p offset max ≡ ok (slice (log s t p) (pos_part offset) max)
unfolding read
read-slice s t p offset max h fits =
    let arr = log s t p in
    let from = pos_part offset in
    elim (Bool-cases (leb (length arr) from)) [
      | inl past ↦ rw (h, read, past) (ap ok (sym (slice_past arr from max (ground arith))))
      | inr inside ↦ rw (h, read, inside) (copy_slice-slice arr from max fits (ground arith))
    ]

overflow :
    (s : InMemoryStore) (t : Bytes) (p offset max : ℤ)
    → s.closed ≡ false
    → pos_part offset < length (log s t p)
    → pos_part offset < 2 ^ 63
    → pos_part max < 2 ^ 63
    → 2 ^ 63 ≤ pos_part offset + pos_part max
    → read s t p offset max ≡ panic
unfolding read slice_end copy_slice
overflow s t p offset (pos max) h inside small fits over = rw (h, read) (ground arith)
overflow s t p offset (negsuc max) h inside small fits over = absurd (omega arith)

past_end :
    (s : InMemoryStore) (t : Bytes) (p offset max : ℤ)
    → s.closed ≡ false
    → length (log s t p) ≤ pos_part offset
    → read s t p offset max ≡ ok (slice (log s t p) (pos_part offset) max)
unfolding read
past_end s t p offset max h past =
    rw (h, read) (ground (arith, slice_past (log s t p) (pos_part offset) max past))

-- A read of an open store, for any 64-bit offset and limit: if the offset is in the log and offset
-- plus limit pass 2^63, it panics; else it returns the messages from the offset on (from the start,
-- if it is negative), at most `max` of them if `max` is positive.
pub read_outcome :
    (s : InMemoryStore) (t : Bytes) (p offset max : ℤ)
    → s.closed ≡ false
    → pos_part offset < 2 ^ 63
    → pos_part max < 2 ^ 63
    → let from = pos_part offset in
      read s t p offset max ≡ (
        if ltb from (length (log s t p)) && leb (2 ^ 63) (from + pos_part max)
        then panic
        else ok (slice (log s t p) from max))
read_outcome s t p offset max h small fits =
    let from = pos_part offset in
    elim (dec_lt from (length (log s t p))) [
      | no outside ↦ ground (arith, past_end s t p offset max h (omega arith))
      | yes inside ↦ elim (dec_lt (from + pos_part max) (2 ^ 63)) [
        | yes short ↦ ground (arith, read-slice s t p offset max h short)
        | no over ↦ ground (arith, overflow s t p offset max h inside small fits (omega arith))
      ]
    ]

-- A read with no limit returns all messages from the offset on, at any offset.
pub read_all :
    (s : InMemoryStore) (t : Bytes) (p : ℤ) (n : ℕ)
    → s.closed ≡ false
    → read s t p (pos n) (pos 0) ≡ ok (drop n (log s t p))
unfolding read slice_end copy_slice
read_all s t p n h =
    let arr = log s t p in
    rw (h, read) (ground (arith, drop_all n arr, take_rest arr n (length arr - n) (omega arith)))
