-- ===== src/Storage/Postgres/Rollback.antt =====
-- How an append of internal/storage/pg_store.go ends.
use go_pub_sub.Prelude.{ℕ, ◌≡◌, refl, sym, ap, ◌∙◌, Option, none, some, ◌⊎◌, inl, inr}
use go_pub_sub.Prelude.Int.{ℤ, pos}
use go_pub_sub.Text.{Bytes}
use go_pub_sub.Go.{Error, Result, ok, err}
use go_pub_sub.Storage.{Message}
use go_pub_sub.Storage.Redis.{with_ts}
use go_pub_sub.Storage.Redis.Server.{Codec, Encoded, json, unencodable}
use go_pub_sub.Storage.Postgres.{
  new_offset, committed_with, after_update, after_message, store_at, after_row, with_last, in_tx,
  append_encoded, append,
}
use go_pub_sub.Storage.Postgres.Statements.{
  Database, IsTransactional, Found, no_rows, a_row, failed,
}

-- A transaction that began at `s`, and has had both writes of an append with offset `n`: the INSERT
-- of the message, then the UPDATE of the partition's row.
pub record HasWritten (D : Database) (T : IsTransactional D) (s : D.State) (t : Bytes) (p n : ℤ)
    (x : D.Tx) : Type 0 where
  pub began : T.origin x ≡ s
  pub before : D.Tx
  pub payload : Bytes
  pub time : ℕ
  pub inserted : (D.insert_message before t p n payload time).0 ≡ none
  pub updated : D.update_offset (D.insert_message before t p n payload time).1 n t p ≡ (none, x)

module _ (D : Database) (J : Codec) (T : IsTransactional D) (s : D.State) (t : Bytes) (p : ℤ) where
  -- An append ends with an error, and the database is as it was; or after both writes, with what
  -- the Commit of their transaction returns and leaves.
  abbrev pub Ended : Result ℤ × D.State → Type 0
  Ended a =
      ((e : Error) × (a ≡ (err e, s)))
      ⊎ ((n : ℤ) × (x : D.Tx) × HasWritten D T s t p n x
          × (((a.0 ≡ ok n) × (D.commit x ≡ (none, a.1)))
              ⊎ ((e : Error) × (a.0 ≡ err e) × (D.commit x ≡ (some e, a.1)))))

  rolled_back : (x : D.Tx) (e : Error) → T.origin x ≡ s → Ended (err e, D.rollback x)
  rolled_back x e q = inl (e, ap (λ y. (err e, y)) (T.rollback_lem x ∙ q))

  commit-Ended :
      (n : ℤ) (x : D.Tx) (c : Option Error × D.State)
      → D.commit x ≡ c
      → HasWritten D T s t p n x
      → Ended (committed_with D J n c)
  commit-Ended n x (none, s') q w = inr (n, x, w, inl (refl, q))
  commit-Ended n x (some e, s') q w = inr (n, x, w, inr (e, refl, q))

  module _ (b : Bytes) (ts : ℕ) where
    update-Ended :
        (n : ℤ) (x : D.Tx) (o : Option Error × D.Tx)
        → T.origin x ≡ s
        → (D.insert_message x t p n b ts).0 ≡ none
        → D.update_offset (D.insert_message x t p n b ts).1 n t p ≡ o
        → Ended (after_update D J n o)
    update-Ended n x (none, y) q i u = commit-Ended n y (D.commit y) refl (record {
      began = origin_of (ap (λ o. o.1) u) q;
      before = x;
      payload = b;
      time = ts;
      inserted = i;
      updated = u;
    })
      where
        origin_of :
            {y : D.Tx}
            → (D.update_offset (D.insert_message x t p n b ts).1 n t p).1 ≡ y
            → T.origin x ≡ s
            → T.origin y ≡ s
        origin_of same q =
            sym (ap T.origin same)
            ∙ T.update_offset_lem _ n t p
            ∙ T.insert_message_lem x t p n b ts
            ∙ q
    update-Ended n x (some e, y) q i u = rolled_back y e (
        sym (ap (λ o. T.origin o.1) u)
        ∙ T.update_offset_lem _ n t p
        ∙ T.insert_message_lem x t p n b ts
        ∙ q)

    message-Ended :
        (n : ℤ) (x : D.Tx) (o : Option Error × D.Tx)
        → T.origin x ≡ s
        → D.insert_message x t p n b ts ≡ o
        → Ended (after_message D J t p n o)
    message-Ended n x (none, y) q i =
        update-Ended n x (D.update_offset y n t p) q (ap (λ o. o.0) i)
          (ap (λ (o : Option Error × D.Tx). D.update_offset o.1 n t p) i)
    message-Ended n x (some e, y) q i =
        rolled_back y e (sym (ap (λ o. T.origin o.1) i) ∙ T.insert_message_lem x t p n b ts ∙ q)

    store-Ended : (n : ℤ) (x : D.Tx) → T.origin x ≡ s → Ended (store_at D J t p b ts n x)
    store-Ended n x q = message-Ended n x (D.insert_message x t p n b ts) q refl

    row-Ended : (o : Option Error × D.Tx) → T.origin o.1 ≡ s → Ended (after_row D J t p b ts o)
    row-Ended (none, x) q = store-Ended (new_offset (some (pos 0))) x q
    row-Ended (some e, x) q = rolled_back x e q

    last-Ended : (x : D.Tx) (f : Found) → T.origin x ≡ s → Ended (with_last D J t p b ts x f)
    last-Ended x no_rows q =
        row-Ended (D.insert_offset x t p (pos 0)) (T.insert_offset_lem x t p (pos 0) ∙ q)
    last-Ended x (failed e) q = rolled_back x e q
    last-Ended x (a_row o) q = store-Ended (new_offset o) x q

    tx-Ended : (o : Error ⊎ D.Tx) → D.begin_tx s ≡ o → Ended (in_tx D J s t p b ts o)
    tx-Ended (inl e) q = inl (e, refl)
    tx-Ended (inr x) q = last-Ended x (D.select_last_offset x t p) (T.begin_lem s x q)

  encoded-Ended : (ts : ℕ) (j : Encoded) → Ended (append_encoded D J s t p ts j)
  encoded-Ended ts (unencodable e) = inl (e, refl)
  encoded-Ended ts (json b) = tx-Ended b ts (D.begin_tx s) refl

-- An append ends in one of two ways. Either it returns an error, and the database is as it was; or
-- both its writes have succeeded in one transaction, for one offset, and it returns what the Commit
-- of that transaction gives: that offset if it succeeds, and its error if it fails. All that is
-- asked of the database is that a transaction that is rolled back leaves it as it began.
pub append_atomic :
    (D : Database) (J : Codec) (T : IsTransactional D) (now : ℕ) (s : D.State) (t : Bytes) (p : ℤ)
    (m : Message)
    → let (r, _, s') = append D J now s t p m in Ended D J T s t p (r, s')
unfolding append
append_atomic D J T now s t p m =
    encoded-Ended D J T s t p (with_ts now m).ts (J.marshal (with_ts now m))
