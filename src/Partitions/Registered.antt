-- ===== src/Partitions/Registered.antt =====
-- Which topics internal/broker/partition_manager.go knows after an `Append`, with any store.
use go_pub_sub.Prelude.{
  ℕ, ◌≡◌, refl, ap, ◌∙◌, Option-cases, inl, inr, Bool, true, false, Option, none, some, arith,
}
use go_pub_sub.Prelude.Int.{ℤ, pos, int32_of}
use go_pub_sub.Text.{Bytes, bytes_eq, bytes_eq_iff}
use go_pub_sub.GoMap.{get, get-put}
use go_pub_sub.Go.{Result, ok, err, panic}
use go_pub_sub.Storage.{Message, LogStorage}
use go_pub_sub.Partitions.{PartitionManager, ensure_topic, choose, append_to, chosen, append}
use go_pub_sub.Partitions.Locks.{create_topic_lem, create_topic_again}
use go_pub_sub.Partitions.Append.{choose_tables, partitions-get_lock}

module _ (L : LogStorage) where
  get-chosen :
      (now : ℕ) (st : L.State) (u t : Bytes) (m : Message) (pm : PartitionManager) (r : Result ℤ)
      → get u (chosen L now st t m (r, pm)).2.partitions ≡ get u pm.partitions
  unfolding chosen append_to
  get-chosen now st u t m pm (ok p) = partitions-get_lock pm u t (int32_of p)
  get-chosen now st u t m pm (err e) = refl
  get-chosen now st u t m pm panic = refl

  -- An append changes the registered topics just as `ensure_topic` does.
  get-append :
      (now : ℕ) (pm : PartitionManager) (st : L.State) (u t : Bytes) (hint : ℤ) (key : Bytes)
      (m : Message)
      → get u (append L now pm st t hint key m).2.partitions
        ≡ get u (ensure_topic pm t).1.partitions
  unfolding append
  get-append now pm st u t hint key m =
      let (partitions, pm1) = ensure_topic pm t in
      let (r, pm2) = choose pm1 t partitions hint key in
      get-chosen now st u t m pm2 r ∙ ap (get u) (choose_tables pm1 t partitions hint key).0

-- what a topic's entry becomes; `new` says whether the append is to that topic
abbrev pub entry : Bool → Option ℤ → Option ℤ
entry new (some n) = some n
entry true none = some (pos 1)
entry false none = none

-- A topic that is registered keeps its count; a new one gets a single partition.
get-ensure_topic :
    (pm : PartitionManager) (u t : Bytes)
    → get u (ensure_topic pm t).1.partitions ≡ entry (bytes_eq t u) (get u pm.partitions)
unfolding ensure_topic
get-ensure_topic pm u t = elim (Option-cases (get t pm.partitions)) [
  | inl e ↦
      rw (e, ensure_topic)
        (ap (get u) (create_topic_lem pm t (pos 1) (omega arith) e).1
          ∙ ground (arith, get-put t u (pos 1) pm.partitions, bytes_eq_iff t u))
  | inr (z, e) ↦ ground (
    arith,
    ap (λ (q : PartitionManager). get u q.partitions) (create_topic_again pm t (pos 1) z e),
    bytes_eq_iff t u,
  )
]

-- An append registers its topic, with one partition if it is new, and leaves every other entry.
pub get-append_lem :
    (L : LogStorage) (now : ℕ) (pm : PartitionManager) (st : L.State) (u t : Bytes) (hint : ℤ)
    (key : Bytes) (m : Message)
    → get u (append L now pm st t hint key m).2.partitions
      ≡ entry (bytes_eq t u) (get u pm.partitions)
get-append_lem L now pm st u t hint key m =
    get-append L now pm st u t hint key m ∙ get-ensure_topic pm u t
