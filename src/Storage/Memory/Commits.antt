-- ===== src/Storage/Memory/Commits.antt =====
-- `CommitOffset`, `GetCommittedOffset` and `Close` of internal/storage/memory_store.go.
use go_pub_sub.Prelude.{ℕ, ◌≡◌, ◌++◌, ◌∷◌, false, none, some, arith, if◌then◌else◌}
use go_pub_sub.Prelude.Int.{ℤ, negsuc}
use go_pub_sub.Text.{Bytes, bytes_eq_refl}
use go_pub_sub.Text.Decimal.{Lacks}
use go_pub_sub.GoMap.{get, get-put}
use go_pub_sub.Go.{err, store_closed}
use go_pub_sub.Storage.{Message, same_commit}
use go_pub_sub.Storage.Memory.{
  InMemoryStore, committed_or_none, append, read, commit_offset, get_committed_offset, close,
}
use go_pub_sub.Storage.Memory.Keys.{ckey, ckey_eq, ckey_collision}

-- the committed offset of a group in a partition, -1 for none
abbrev pub committed : InMemoryStore → Bytes → Bytes → ℤ → ℤ
committed s group topic partition =
    (committed_or_none (get (ckey group topic partition) s.commits)).0

-- After a commit to an open store, the committed offset of that group and partition is the new one,
-- and that of any other group or partition is what it was, if no group name holds a colon.
pub committed-commit_offset :
    (s : InMemoryStore) (g t g' t' : Bytes) (p offset p' : ℤ)
    → s.closed ≡ false
    → Lacks b':' g
    → Lacks b':' g'
    → committed (commit_offset s g t p offset).1 g' t' p'
      ≡ (if same_commit g t p g' t' p' then offset else committed s g' t' p')
unfolding commit_offset
committed-commit_offset s g t g' t' p offset p' h l l' =
    ground
      (arith, get-put (ckey g t p) (ckey g' t' p') offset s.commits, ckey_eq g g' t t' p p' l l')

-- The lookup on an open store returns the committed offset and no error.
pub get_committed_offset_lem :
    (s : InMemoryStore) (g t : Bytes) (p : ℤ)
    → s.closed ≡ false
    → get_committed_offset s g t p ≡ (committed s g t p, none)
unfolding get_committed_offset
get_committed_offset_lem s g t p h = rw (h, get_committed_offset) (ground arith)

-- A colon in a group name lets a commit of one group move the offset of another group on another
-- topic: after `g:a` commits on `t`, the group `g` finds that offset committed on `a:t`.
pub commit_collision :
    (s : InMemoryStore) (g a t : Bytes) (p offset : ℤ)
    → s.closed ≡ false
    → get_committed_offset (commit_offset s (g ++ b':' ∷ a) t p offset).1 g (a ++ b':' ∷ t) p
      ≡ (offset, none)
unfolding commit_offset get_committed_offset
commit_collision s g a t p offset h = simp (h, ckey_collision, get-put, bytes_eq_refl)

-- Once closed, the store refuses every call but `Close` with the error "store closed", and no call
-- changes it.
pub closed_refuses :
    (now : ℕ) (s : InMemoryStore) (g t : Bytes) (p offset max : ℤ) (m : Message)
    → let c = (close s).1 in
      (append now c t p m ≡ (err store_closed, m, c))
      × (read c t p offset max ≡ err store_closed)
      × (commit_offset c g t p offset ≡ (some store_closed, c))
      × (get_committed_offset c g t p ≡ (negsuc 0, some store_closed))
      × (close c ≡ (none, c))
unfolding close append read commit_offset get_committed_offset
closed_refuses now s g t p offset max m = ground arith
