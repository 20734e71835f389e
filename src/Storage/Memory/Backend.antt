-- ===== src/Storage/Memory/Backend.antt =====
-- The in-memory store as a `LogStorage` (internal/storage/storage.go) that keeps the contract.
use go_pub_sub.Storage.RoundTrip.{read-append}
use go_pub_sub.Go.{ok}
use go_pub_sub.Prelude.{[], ◌∷◌, ℕ, ◌≡◌, refl, ap, sym, subst, ◌∙◌, length, false, none, arith}
use go_pub_sub.Prelude.Int.{ℤ}
use go_pub_sub.Prelude.Int.{int32_of, pos}
use go_pub_sub.Text.{Bytes}
use go_pub_sub.Text.Decimal.{Lacks}
use go_pub_sub.Storage.{Message, LogStorage, Contract, IsStored}
use go_pub_sub.Storage.Memory
use go_pub_sub.Storage.Memory.{InMemoryStore, stamp, append, commit_offset}
use go_pub_sub.Storage.Memory.Log.{log, append-IsAppended, read_all}
use go_pub_sub.Storage.Memory.Commits.{committed, committed-commit_offset, get_committed_offset_lem}

abbrev pub memory : LogStorage
memory = record {
  State = InMemoryStore;
  append = Memory.append;
  read = Memory.read;
  commit_offset = Memory.commit_offset;
  get_committed_offset = Memory.get_committed_offset;
  close = Memory.close;
}

pub committed-append :
    (now : ℕ) (s : InMemoryStore) (t : Bytes) (p : ℤ) (m : Message) (g' t' : Bytes) (p' : ℤ)
    → committed (append now s t p m).2 g' t' p' ≡ committed s g' t' p'
unfolding append
committed-append now s t p m g' t' p' = ground arith

pub commit_offset_lem :
    (s : InMemoryStore) (g t : Bytes) (p offset : ℤ)
    → s.closed ≡ false
    → let (e, s') = commit_offset s g t p offset in
      (s'.closed ≡ false) × (e ≡ none) × ((t' : Bytes) (p' : ℤ) → log s' t' p' ≡ log s t' p')
unfolding commit_offset
commit_offset_lem s g t p offset h = rw h (refl, refl, λ t' p'. refl)

-- The in-memory store keeps the contract of `LogStorage`, for groups whose name holds no colon.
abbrev pub memory-Contract : Contract memory
memory-Contract = record {
  Open = λ s. s.closed ≡ false;
  IsGroup = Lacks b':';
  IsMessage = λ m. Unit {0};
  IsOffset = λ offset. Unit {0};
  log = log;
  committed = committed;
  append_lem = λ now s t p m h _ e.
      let a = append-IsAppended now s t p m h e in (a.0, a.1, committed-append now s t p m);
  read_lem = λ s t p n h. read_all s t p n h;
  commit_lem = λ s g t p offset h l _.
      let c = commit_offset_lem s g t p offset h in
      (c.0, c.1, c.2, λ g' t' p' l'. committed-commit_offset s g t g' t' p offset p' h l l');
  get_committed_lem = λ s g t p h _. get_committed_offset_lem s g t p h;
}

-- The store writes the partition of the message that it gets, whatever stands there.
append-partition :
    (now : ℕ) (s : InMemoryStore) (t : Bytes) (p : ℤ) (m : Message)
    → s.closed ≡ false
    → append now s t p (record m { partition = int32_of p }) ≡ append now s t p m
unfolding append stamp
append-partition now s t p m h = rw h refl

append_offset :
    (now : ℕ) (s : InMemoryStore) (t : Bytes) (p : ℤ) (m : Message)
    → s.closed ≡ false
    → (append now s t p m).1.offset ≡ pos (length (log s t p))
unfolding append stamp
append_offset now s t p m h = rw h refl

-- In the in-memory store, while it is open: `append` returns the length of the partition's log as
-- the offset, and a read from that offset returns one message. That has the appended message's
-- topic, key, value and headers, this partition and this offset, and the message's time, or the
-- time of the append if it has none. The caller's message is this one afterwards.
pub memory_read-append :
    (now : ℕ) (s : InMemoryStore) (t : Bytes) (p : ℤ) (m : Message)
    → s.closed ≡ false
    → let (r, m', s') = append now s t p m in
      let n = length (log s t p) in
      (r ≡ ok (pos n))
      × IsStored now n (record m { partition = int32_of p }) m'
      × (Memory.read s' t p (pos n) (pos 0) ≡ ok (m' ∷ []))
memory_read-append now s t p m h =
    subst
      (λ a.
        (a.0 ≡ ok (pos (length (log s t p))))
        × IsStored now (length (log s t p)) (record m { partition = int32_of p }) a.1
        × (Memory.read a.2 t p (pos (length (log s t p))) (pos 0) ≡ ok (a.1 ∷ [])))
      (append-partition now s t p m h) (at_ (record m { partition = int32_of p }) refl)
  where
    at_ :
        (k : Message)
        → k.partition ≡ int32_of p
        → let (r, k', s') = append now s t p k in
          (r ≡ ok (pos (length (log s t p))))
          × IsStored now (length (log s t p)) k k'
          × (Memory.read s' t p (pos (length (log s t p))) (pos 0) ≡ ok (k' ∷ []))
    at_ k e =
        let i = (append-IsAppended now s t p k h e).1 in
        let (result, found) = read-append memory memory-Contract now s t p k h tt e in
        let o = append_offset now s t p k h in
        let same : (append now s t p k).1 ≡ i.kept =
          ap (λ x. record (append now s t p k).1 { offset = x }) o ∙ i.returned in
        (
          result,
          subst (IsStored now (length (log s t p)) k) (sym same) i.stored,
          found ∙ ap (λ x. ok (record (append now s t p k).1 { offset = x } ∷ [])) (sym o),
        )
