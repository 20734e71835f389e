-- ===== src/Partitions/Exclusive.antt =====
-- The mutexes that `getLock` of internal/broker/partition_manager.go returns over the life of a
-- partition manager, whatever calls come in between.
use go_pub_sub.Prelude.{ℕ, ◌^◌, ◌≡◌, sym, ap, ap₂, ◌∙◌, ◌↔◌, some, Bool-cases, inl, inr, arith}
use go_pub_sub.Prelude.Int.{ℤ, pos, ◌≤ℤ◌, eq_ℤ, int32_of}
use go_pub_sub.Text.{Bytes}
use go_pub_sub.GoMap.{get}
use go_pub_sub.Go.{Result, ok, err, panic}
use go_pub_sub.Storage.{Message, LogStorage}
use go_pub_sub.Storage.Memory.Keys.{tkey_injective}
use go_pub_sub.Partitions.{
  PartitionManager, new_partition_manager, tp_key, create_topic, choose, get_lock, chosen,
  append_to, ensure_topic, append, get_partition_count,
}
use go_pub_sub.Partitions.Locks.{IsValid, Keeps, create_topic-IsValid, create_topic-Keeps}
use go_pub_sub.Partitions.Mutex.{get_lock-IsValid, get_lock-Keeps, get_lock_lem}
use go_pub_sub.Partitions.Append.{choose_tables, IsValid-tables, ensure_topic_lem}

-- `Calls pm pm'`: what `CreateTopic` and the pieces of `Append` make of `pm`, in any order. A count
-- comes from an int32, and `Append` takes the mutex of a topic that it has registered.
pub data Calls (pm : PartitionManager) : PartitionManager → Type 0 where
  start : Calls pm pm
  creates :
      {q : PartitionManager} (t : Bytes) (n : ℤ)
      → Calls pm q
      → n ≤ℤ pos (2 ^ 31)
      → Calls pm (create_topic q t n).1
  chooses :
      {q : PartitionManager} (t : Bytes) (n hint : ℤ) (key : Bytes)
      → Calls pm q
      → Calls pm (choose q t n hint key).1
  locks :
      {q : PartitionManager} (t : Bytes) (p n : ℤ)
      → Calls pm q
      → get t q.partitions ≡ some n
      → Calls pm (get_lock q t p).1

Calls-lem : (pm pm' : PartitionManager) → Calls pm pm' → IsValid pm → IsValid pm' × Keeps pm pm'
Calls-lem pm _ start v = (v, λ k l e. e)
Calls-lem pm _ (creates {q = q} t n r small) v =
    let (v', keeps) = Calls-lem pm q r v in
    (create_topic-IsValid q t n small v', λ k l e. create_topic-Keeps q t n v' k l (keeps k l e))
Calls-lem pm _ (chooses {q = q} t n hint key r) v =
    let (v', keeps) = Calls-lem pm q r v in
    let tables = choose_tables q t n hint key in
    (IsValid-tables q _ tables v', λ k l e. ap (get k) tables.1 ∙ keeps k l e)
Calls-lem pm _ (locks {q = q} t p n r registered) v =
    let (v', keeps) = Calls-lem pm q r v in
    (get_lock-IsValid q t p n registered v', λ k l e. get_lock-Keeps q t p k l (keeps k l e))

-- An `Append`, with any store, is made of such calls.
module _ (L : LogStorage) (now : ℕ) (st : L.State) (t : Bytes) (m : Message)
    (pm : PartitionManager) where
  chosen-Calls :
      (n : ℤ) (a : Result ℤ × PartitionManager)
      → Calls pm a.1
      → get t a.1.partitions ≡ some n
      → Calls pm (chosen L now st t m a).2
  unfolding chosen append_to
  chosen-Calls n (ok p, q) r registered = locks t (int32_of p) n r registered
  chosen-Calls n (err e, q) r registered = r
  chosen-Calls n (panic, q) r registered = r

  ensure_topic-Calls : (q : PartitionManager) → Calls pm q → Calls pm (ensure_topic q t).1
  unfolding ensure_topic
  ensure_topic-Calls q r = elim (Bool-cases (eq_ℤ (get_partition_count q t) (pos 0))) [
    | inl e ↦ rw e (creates t (pos 1) r (omega arith))
    | inr e ↦ rw e r
  ]

  pub append-Calls :
      (q : PartitionManager) (hint : ℤ) (key : Bytes)
      → IsValid pm
      → Calls pm q
      → Calls pm (append L now q st t hint key m).2
  unfolding append
  append-Calls q hint key v r =
      let (n, _, _, _, registered) = ensure_topic_lem q t (Calls-lem pm q r v).0 in
      let (count, q') = ensure_topic q t in
      chosen-Calls (pos n) (choose q' t count hint key)
        (chooses t count hint key (ensure_topic-Calls q r))
        (ap (get t) (choose_tables q' t count hint key).0 ∙ registered)

new-IsValid : IsValid new_partition_manager
unfolding get
new-IsValid = record {
  below = λ k l e. absurd (cc e);
  apart = λ k j l e f. absurd (cc e);
  owned = λ k l e. absurd (cc e);
  counted = λ t n e. absurd (cc e);
}

-- Over the life of a partition manager, from `NewPartitionManager` on, with topics of up to 2^31
-- partitions: two calls of `getLock` for registered topics, with any calls before and in between,
-- return one mutex for one partition, and two for two partitions.
pub get_lock_exclusive :
    (pm later : PartitionManager) (t t' : Bytes) (p p' n n' : ℤ)
    → Calls new_partition_manager pm
    → get t pm.partitions ≡ some n
    → Calls (get_lock pm t p).1 later
    → get t' later.partitions ≡ some n'
    → ((get_lock pm t p).0 ≡ (get_lock later t' p').0) ↔ ((t ≡ t') × (p ≡ p'))
get_lock_exclusive pm later t t' p p' n n' before known between known' =
    let (v, _) = Calls-lem new_partition_manager pm before new-IsValid in
    let (later_valid, keeps) =
      Calls-lem (get_lock pm t p).1 later between (get_lock-IsValid pm t p n known v) in
    let first = get_lock-Keeps later t' p' _ _ (keeps _ _ (get_lock_lem pm t p)) in
    let second = get_lock_lem later t' p' in
    (
      λ same. tkey_injective t t' p p' (
          (get_lock-IsValid later t' p' n' known' later_valid).apart _ _ _ first
            (second ∙ ap some (sym same))),
      λ (topics, partitions). some_injective (
          sym first
          ∙ ap₂ (λ s q. get (tp_key s q) (get_lock later t' p').1.locks) topics partitions
          ∙ second),
    )
  where
    some_injective : {a b : ℕ} → some a ≡ some b → a ≡ b
    some_injective e = cc
