-- ===== src/Storage/Postgres/Reserved.antt =====
-- internal/storage/pg_store.go on PostgreSQL, whose parser refuses the column name OFFSET.
use go_pub_sub.Prelude.{ℕ, ◌≡◌, refl, sym, ap, ◌∙◌, Option, none, some, List, ◌∷◌, ◌⊎◌, inl, inr}
use go_pub_sub.Prelude.Int.{ℤ}
use go_pub_sub.Text.{Bytes}
use go_pub_sub.Go.{Error, Result, err}
use go_pub_sub.Storage.{Message}
use go_pub_sub.Storage.Redis.Server.{Codec}
use go_pub_sub.Storage.Postgres.{schema, exec_all, ensure_schema, new_postgres_store, append}
use go_pub_sub.Storage.Postgres.Statements.{
  Database, Query, create_messages, IsTransactional, IsReserved,
}
use go_pub_sub.Storage.Postgres.Rollback.{Ended, append_atomic}

module _ (D : Database) (J : Codec) (T : IsTransactional D) (R : IsReserved D) where
  first_fails :
      (x : D.Tx) (queries : List Query)
      → (e : Error) × (exec_all D J (create_messages ∷ queries) x ≡ (some e, T.origin x))
  unfolding exec_all
  first_fails x queries =
      let (e, failed_) = R.create_messages_lem x in
      (
        e,
        ap
              (λ o. elim o [
                | some a ↦ (some a, D.rollback (D.exec x create_messages).1)
                | none ↦ exec_all D J queries (D.exec x create_messages).1
              ])
              failed_
            ∙ ap (λ y. (some e, y)) (T.rollback_lem _ ∙ T.exec_lem x create_messages),
      )

  no_schema : (s : D.State) → (e : Error) × (ensure_schema D J s ≡ (some e, s))
  unfolding ensure_schema
  no_schema s =
      let (e, failed_) = at_ (D.begin_tx s) refl in (e, sym (same (D.begin_tx s)) ∙ failed_)
    where
      after_begin : Error ⊎ D.Tx → Option Error × D.State
      after_begin (inl e) = (some e, s)
      after_begin (inr x) = exec_all D J (schema D J) x

      same :
          (o : Error ⊎ D.Tx)
          → after_begin o ≡ elim o [ inl e ↦ (some e, s) | inr x ↦ exec_all D J (schema D J) x ]
      same (inl e) = refl
      same (inr x) = refl

      at_ : (o : Error ⊎ D.Tx) → D.begin_tx s ≡ o → (e : Error) × (after_begin o ≡ (some e, s))
      at_ (inl e) q = (e, refl)
      at_ (inr x) q =
          let (e, failed_) = first_fails x _ in
          (e, failed_ ∙ ap (λ y. (some e, y)) (T.begin_lem s x q))

  no_store :
      (opened pinged : Option Error) (s : D.State)
      → (e : Error) × (new_postgres_store D J opened pinged s ≡ inl e)
  unfolding new_postgres_store
  no_store (some e) pinged s = (e, refl)
  no_store none (some e) s = (e, refl)
  no_store none none s =
      let (e, failed_) = no_schema s in
      (e, ap (λ r. elim r.0 [ some a ↦ inl a | none ↦ inr r.1 ]) failed_)

  refused :
      (s : D.State) (t : Bytes) (p : ℤ) (a : Result ℤ × D.State)
      → Ended D J T s t p a
      → (e : Error) × (a.0 ≡ err e) × (a.1 ≡ s)
  refused s t p a (inl (e, q)) = (e, ap (λ r. r.0) q, ap (λ r. r.1) q)
  refused s t p a (inr (n, x, w, _)) =
      let (e, f) = R.insert_message_lem w.before t p n w.payload w.time in
      absurd (clash (sym w.inserted ∙ f))
    where
      clash : {e : Error} → none ≡ some e → ⊥
      clash q = cc

-- On a database that refuses OFFSET as a column's name, as PostgreSQL does, and where a transaction
-- that is rolled back leaves it as it began: the constructor always returns an error, and the
-- transaction in which it makes the tables leaves the database as it was; and every append returns
-- an error and leaves the database as it was.
pub never_serves :
    (D : Database) (J : Codec) (T : IsTransactional D) (R : IsReserved D)
    (opened pinged : Option Error) (now : ℕ) (s : D.State) (t : Bytes) (p : ℤ) (m : Message)
    → ((e : Error) × (new_postgres_store D J opened pinged s ≡ inl e))
      × ((ensure_schema D J s).1 ≡ s)
      × (let (r, _, s') = append D J now s t p m in (e : Error) × (r ≡ err e) × (s' ≡ s))
never_serves D J T R opened pinged now s t p m =
    let (_, same) = no_schema D J T R s in
    let (r, _, s') = append D J now s t p m in
    (
      no_store D J T R opened pinged s,
      ap (λ a. a.1) same,
      refused D J T R s t p (r, s') (append_atomic D J T now s t p m),
    )
