-- ===== src/Storage/Postgres.antt =====
-- internal/storage/pg_store.go: `PostgresStore`, on the statements that it sends to a database and
-- on the JSON codec of messages, which are parameters: see Statements. A message that a method gets
-- is not nil.
pub mod Statements
pub mod Rollback
pub mod Reserved
use go_pub_sub.Prelude.{ℕ, Option, none, some, List, [], ◌∷◌, ◌==◌, ◌⊎◌, inl, inr, if◌then◌else◌}
use go_pub_sub.Prelude.Int.{ℤ, pos, negsuc, ◌+ℤ◌, ltb_ℤ, int64_of}
use go_pub_sub.Text.{Bytes, is_empty}
use go_pub_sub.Go.{Error, Result, ok, err, panic, group_required}
use go_pub_sub.Storage.{Message, LogStorage}
use go_pub_sub.Storage.Redis.{with_ts}
use go_pub_sub.Storage.Redis.Server.{Codec, Encoded, json, unencodable}
use Statements.{
  Database, Query, create_messages, create_offsets, create_commits, create_index, Row, scanned,
  unreadable, Found, no_rows, a_row, failed,
}

-- lastOffset.Int64 + 1 if the value is there, and the zero of `NullInt64` if it is NULL
abbrev pub new_offset : Option ℤ → ℤ
new_offset none = pos 0
new_offset (some last) = int64_of (last +ℤ pos 1)

-- The value of a commit: no row, a NULL or a number.
abbrev pub commit_of : Found → ℤ × Option Error
commit_of no_rows = (negsuc 0, none)
commit_of (failed e) = (negsuc 0, some e)
commit_of (a_row none) = (negsuc 0, none)
commit_of (a_row (some offset)) = (offset, none)

module _ (D : Database) (J : Codec) where
  -- for _, q := range queries { ... } return tx.Commit()
  unfoldable pub exec_all : List Query → D.Tx → Option Error × D.State
  exec_all [] x = D.commit x
  exec_all (q ∷ queries) x =
      let (e, x') = D.exec x q in
      elim e [ some a ↦ (some a, D.rollback x') | none ↦ exec_all queries x' ]

  abbrev pub schema : List Query
  schema = create_messages ∷ create_offsets ∷ create_commits ∷ create_index ∷ []

  unfoldable pub ensure_schema : D.State → Option Error × D.State
  ensure_schema s = elim (D.begin_tx s) [ inl e ↦ (some e, s) | inr x ↦ exec_all schema x ]

  -- `opened` and `pinged` are the errors of `sql.Open` and of the ping.
  unfoldable pub new_postgres_store : Option Error → Option Error → D.State → Error ⊎ D.State
  new_postgres_store (some e) pinged s = inl e
  new_postgres_store none (some e) s = inl e
  new_postgres_store none none s =
      let (e, s') = ensure_schema s in elim e [ some a ↦ inl a | none ↦ inr s' ]

  -- `return newOffset, nil` behind the Commit; a Commit that fails has ended the transaction
  abbrev pub committed_with : ℤ → Option Error × D.State → Result ℤ × D.State
  committed_with n (none, s) = (ok n, s)
  committed_with n (some e, s) = (err e, s)

  -- An error on the way returns through the deferred Rollback.
  abbrev pub after_update : ℤ → Option Error × D.Tx → Result ℤ × D.State
  after_update n (none, x) = committed_with n (D.commit x)
  after_update n (some e, x) = (err e, D.rollback x)

  abbrev pub after_message : Bytes → ℤ → ℤ → Option Error × D.Tx → Result ℤ × D.State
  after_message topic partition n (none, x) = after_update n (D.update_offset x n topic partition)
  after_message topic partition n (some e, x) = (err e, D.rollback x)

  -- from the INSERT of the message on
  abbrev pub store_at : Bytes → ℤ → Bytes → ℕ → ℤ → D.Tx → Result ℤ × D.State
  store_at topic partition payload ts n x =
      after_message topic partition n (D.insert_message x topic partition n payload ts)

  -- The row that is inserted for a new partition has 0, and its offset is valid.
  abbrev pub after_row : Bytes → ℤ → Bytes → ℕ → Option Error × D.Tx → Result ℤ × D.State
  after_row topic partition payload ts (none, x) =
      store_at topic partition payload ts (new_offset (some (pos 0))) x
  after_row topic partition payload ts (some e, x) = (err e, D.rollback x)

  abbrev pub with_last : Bytes → ℤ → Bytes → ℕ → D.Tx → Found → Result ℤ × D.State
  with_last topic partition payload ts x no_rows =
      after_row topic partition payload ts (D.insert_offset x topic partition (pos 0))
  with_last topic partition payload ts x (failed e) = (err e, D.rollback x)
  with_last topic partition payload ts x (a_row last) =
      store_at topic partition payload ts (new_offset last) x

  abbrev pub in_tx : D.State → Bytes → ℤ → Bytes → ℕ → Error ⊎ D.Tx → Result ℤ × D.State
  in_tx s topic partition payload ts (inl e) = (err e, s)
  in_tx s topic partition payload ts (inr x) =
      with_last topic partition payload ts x (D.select_last_offset x topic partition)

  abbrev pub append_encoded : D.State → Bytes → ℤ → ℕ → Encoded → Result ℤ × D.State
  append_encoded s topic partition ts (unencodable e) = (err e, s)
  append_encoded s topic partition ts (json payload) =
      in_tx s topic partition payload ts (D.begin_tx s)

  unfoldable pub append : ℕ → D.State → Bytes → ℤ → Message → Result ℤ × Message × D.State
  append now s topic partition msg =
      let msg' = with_ts now msg in
      let (r, s') = append_encoded s topic partition msg'.ts (J.marshal msg') in (r, msg', s')

  -- One row of the result: what cannot be scanned or decoded is skipped.
  abbrev pub with_row : ℤ → ℕ → Option Message → List Message → List Message
  with_row off ts none rest = rest
  with_row off ts (some m) rest =
      record m { offset = off; ts = if m.ts == 0 then ts else m.ts } ∷ rest

  unfoldable pub scan_all : List Row → List Message
  scan_all [] = []
  scan_all (unreadable ∷ rows) = scan_all rows
  scan_all (scanned raw off ts ∷ rows) = with_row off ts (J.unmarshal raw) (scan_all rows)

  abbrev pub scan : Result (List Row) → Result (List Message)
  scan (ok rows) = ok (scan_all rows)
  scan (err e) = err e
  scan panic = panic

  unfoldable pub read : D.State → Bytes → ℤ → ℤ → ℤ → Result (List Message)
  read s topic partition offset max = scan (
      D.select_messages s topic partition (if ltb_ℤ offset (pos 0) then pos 0 else offset)
        (if ltb_ℤ (pos 0) max then some max else none))

  unfoldable pub commit_offset : D.State → Bytes → Bytes → ℤ → ℤ → Option Error × D.State
  commit_offset s group topic partition offset =
      if is_empty group
      then (some group_required, s)
      else D.upsert_commit s group topic partition offset

  unfoldable pub get_committed_offset : D.State → Bytes → Bytes → ℤ → ℤ × Option Error
  get_committed_offset s group topic partition =
      if is_empty group
      then (negsuc 0, some group_required)
      else commit_of (D.select_commit s group topic partition)

  unfoldable pub close : D.State → Option Error × D.State
  close s = D.close s

  -- the store as a `LogStorage`
  abbrev pub postgres : LogStorage
  postgres = record {
    State = D.State;
    append = append;
    read = read;
    commit_offset = commit_offset;
    get_committed_offset = get_committed_offset;
    close = close;
  }
