-- ===== src/Storage/Postgres/Statements.antt =====
-- What internal/storage/pg_store.go uses from outside: a SQL database through `database/sql`, one
-- operation for each statement that the store sends, and what a transaction promises.
use go_pub_sub.Prelude.{ℕ, ◌≡◌, ◌⊎◌, inr, Option, some, List}
use go_pub_sub.Prelude.Int.{ℤ}
use go_pub_sub.Text.{Bytes}
use go_pub_sub.Go.{Error, Result}

-- a row of `messages` behind its key, as `rows.Scan` gives it, or as it fails
pub data Row : Type 0 where
  scanned : Bytes → ℤ → ℕ → Row
  unreadable : Row

-- what a query for one number returns: `sql.ErrNoRows`, a value that may be NULL, or another error
pub data Found : Type 0 where
  no_rows : Found
  a_row : Option ℤ → Found
  failed : Error → Found

-- the statements of `ensureSchema`, each with IF NOT EXISTS
pub data Query : Type 0 where
  create_messages create_offsets create_commits create_index : Query

-- A statement of the transaction `Tx` returns its error and the transaction behind it.
pub record Database : Type 1 where
  pub State : Type 0
  pub Tx : Type 0
  pub begin_tx : State → Error ⊎ Tx
  pub rollback : Tx → State
  pub commit : Tx → Option Error × State
  pub exec : Tx → Query → Option Error × Tx
  pub select_last_offset : Tx → Bytes → ℤ → Found
  pub insert_offset : Tx → Bytes → ℤ → ℤ → Option Error × Tx
  pub insert_message : Tx → Bytes → ℤ → ℤ → Bytes → ℕ → Option Error × Tx
  pub update_offset : Tx → ℤ → Bytes → ℤ → Option Error × Tx
  pub select_messages : State → Bytes → ℤ → ℤ → Option ℤ → Result (List Row)
  pub upsert_commit : State → Bytes → Bytes → ℤ → ℤ → Option Error × State
  pub select_commit : State → Bytes → Bytes → ℤ → Found
  pub close : State → Option Error × State

-- A transaction that is rolled back leaves the database as it began, whatever statements it has had.
-- Nothing is said of a Commit: one that fails may have taken effect.
pub record IsTransactional (D : Database) : Type 1 where
  pub origin : D.Tx → D.State
  pub begin_lem : (s : D.State) (x : D.Tx) → D.begin_tx s ≡ inr x → origin x ≡ s
  pub exec_lem : (x : D.Tx) (q : Query) → origin (D.exec x q).1 ≡ origin x
  pub insert_offset_lem :
      (x : D.Tx) (t : Bytes) (p n : ℤ) → origin (D.insert_offset x t p n).1 ≡ origin x
  pub insert_message_lem :
      (x : D.Tx) (t : Bytes) (p n : ℤ) (b : Bytes) (ts : ℕ)
      → origin (D.insert_message x t p n b ts).1 ≡ origin x
  pub update_offset_lem :
      (x : D.Tx) (n : ℤ) (t : Bytes) (p : ℤ) → origin (D.update_offset x n t p).1 ≡ origin x
  pub rollback_lem : (x : D.Tx) → D.rollback x ≡ origin x

-- PostgreSQL's parser, for which OFFSET is a reserved word: a statement that has it as a column's
-- name without quotes is a syntax error, and fails.
pub record IsReserved (D : Database) : Type 0 where
  pub create_messages_lem : (x : D.Tx) → (e : Error) × ((D.exec x create_messages).0 ≡ some e)
  pub insert_message_lem :
      (x : D.Tx) (t : Bytes) (p n : ℤ) (b : Bytes) (ts : ℕ)
      → (e : Error) × ((D.insert_message x t p n b ts).0 ≡ some e)
