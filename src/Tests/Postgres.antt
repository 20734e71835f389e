-- ===== src/Tests/Postgres.antt =====
-- The theorems on internal/storage/pg_store.go, on a database that keeps its tables as functions.
use go_pub_sub.Prelude.{
  ◌≡◌, ◌&&◌, if◌then◌else◌, refl, sym, ap, Bool, true, false, Option, none, some, [], inl, inr,
}
use go_pub_sub.Prelude.Int.{ℤ, pos, eq_ℤ}
use go_pub_sub.Text.{Bytes}
use go_pub_sub.Go.{Error, ok, err, external}
use go_pub_sub.Storage.{same_log}
use go_pub_sub.Storage.Postgres.{append, new_postgres_store, ensure_schema}
use go_pub_sub.Storage.Postgres.Statements.{
  Database, IsTransactional, IsReserved, Found, no_rows, a_row,
}
use go_pub_sub.Storage.Postgres.Rollback.{Ended, append_atomic}
use go_pub_sub.Storage.Postgres.Reserved.{never_serves}
use go_pub_sub.Tests.{orders, message}
use go_pub_sub.Tests.Redis.{codec}

-- the tables: the row of `offsets` for a partition, and whether `messages`
-- has a row with an offset of it, which is part of its primary key.
pub record Tables : Type 0 where
  last : Bytes → ℤ → Option ℤ
  taken : Bytes → ℤ → ℤ → Bool

abbrev pub set_last : Bytes → ℤ → ℤ → Tables → Tables
set_last t p n T = record T { last = λ u q. if same_log t p u q then some n else T.last u q }

abbrev pub add_message : Bytes → ℤ → ℤ → Tables → Tables
add_message t p n T = record T {
  taken = λ u q k. if same_log t p u q && eq_ℤ n k then true else T.taken u q k;
}

abbrev row_of : Option ℤ → Found
row_of none = no_rows
row_of (some n) = a_row (some n)

-- a transaction: the tables as it began, and as it sees them
abbrev pub Transaction : Type 0
Transaction = Tables × Tables

abbrev pub insert_unless : Bytes → ℤ → ℤ → Transaction → Bool → Option Error × Transaction
insert_unless t p n (o, w) true = (some (external 3), (o, w))
insert_unless t p n (o, w) false = (none, (o, add_message t p n w))

abbrev pub update_row : Bytes → ℤ → ℤ → Transaction → Option ℤ → Option Error × Transaction
update_row t p n (o, w) none = (none, (o, w))
update_row t p n (o, w) (some _) = (none, (o, set_last t p n w))

abbrev pub database : Database
database = record {
  State = Tables;
  Tx = Transaction;
  begin_tx = λ s. inr (s, s);
  rollback = λ x. x.0;
  commit = λ x. (none, x.1);
  exec = λ x q. (none, x);
  select_last_offset = λ x t p. row_of (x.1.last t p);
  insert_offset = λ x t p n. (none, (x.0, set_last t p n x.1));
  insert_message = λ x t p n b ts. insert_unless t p n x (x.1.taken t p n);
  update_offset = λ x n t p. update_row t p n x (x.1.last t p);
  select_messages = λ s t p from max. ok [];
  upsert_commit = λ s g t p n. (none, s);
  select_commit = λ s g t p. no_rows;
  close = λ s. (none, s);
}

insert_unless-origin :
    (t : Bytes) (p n : ℤ) (x : Transaction) (c : Bool) → (insert_unless t p n x c).1.0 ≡ x.0
insert_unless-origin t p n x true = refl
insert_unless-origin t p n x false = refl

update_row-origin :
    (t : Bytes) (p n : ℤ) (x : Transaction) (o : Option ℤ) → (update_row t p n x o).1.0 ≡ x.0
update_row-origin t p n x none = refl
update_row-origin t p n x (some _) = refl

database-IsTransactional : IsTransactional database
database-IsTransactional = record {
  origin = λ x. x.0;
  begin_lem = λ s x e. ap (λ o. elim o [ inl _ ↦ s | inr y ↦ y.0 ]) (sym e);
  exec_lem = λ x q. refl;
  insert_offset_lem = λ x t p n. refl;
  insert_message_lem = λ x t p n b ts. insert_unless-origin t p n x (x.1.taken t p n);
  update_offset_lem = λ x n t p. update_row-origin t p n x (x.1.last t p);
  rollback_lem = λ x. refl;
}

abbrev pub empty : Tables
empty = record { last = λ t p. none; taken = λ t p n. false }

append_atomic_example : Ended database codec database-IsTransactional empty orders (pos 0) (
  (append database codec 7 empty orders (pos 0) message).0,
  (append database codec 7 empty orders (pos 0) message).2,
)
append_atomic_example =
    append_atomic database codec database-IsTransactional 7 empty orders (pos 0) message

-- the same database with a parser that refuses the statements that name the column
abbrev syntax_error : Error
syntax_error = external 4

abbrev refusing : Database
refusing = record database {
  exec = λ x q. (some syntax_error, x);
  insert_message = λ x t p n b ts. (some syntax_error, x);
}

refusing-IsTransactional : IsTransactional refusing
refusing-IsTransactional = record {
  origin = λ x. x.0;
  begin_lem = λ s x e. ap (λ o. elim o [ inl _ ↦ s | inr y ↦ y.0 ]) (sym e);
  exec_lem = λ x q. refl;
  insert_offset_lem = λ x t p n. refl;
  insert_message_lem = λ x t p n b ts. refl;
  update_offset_lem = λ x n t p. update_row-origin t p n x (x.1.last t p);
  rollback_lem = λ x. refl;
}

refusing-IsReserved : IsReserved refusing
refusing-IsReserved = record {
  create_messages_lem = λ x. (syntax_error, refl);
  insert_message_lem = λ x t p n b ts. (syntax_error, refl);
}

never_serves_example :
    ((e : Error) × (new_postgres_store refusing codec none none empty ≡ inl e))
    × ((ensure_schema refusing codec empty).1 ≡ empty)
    × (let (r, _, s') = append refusing codec 7 empty orders (pos 0) message in
        (e : Error) × (r ≡ err e) × (s' ≡ empty))
never_serves_example =
    never_serves refusing codec refusing-IsTransactional refusing-IsReserved none none 7 empty
      orders (pos 0) message
