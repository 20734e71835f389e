-- ===== src/Partitions/Append.antt =====
-- `Append` of internal/broker/partition_manager.go, over any store that keeps the contract.
use go_pub_sub.Prelude.{
  ℕ, ◌+◌, ◌^◌, ◌≤◌, ◌<◌, ◌≡◌, refl, sym, ap, subst, ◌∙◌, ◌⊎◌, inl, inr, some, [], ◌∷◌, ◌++◌, arith,
  Option-cases, Bool-cases, length, if◌then◌else◌,
}
use go_pub_sub.Prelude.Int.{ℤ, pos, negsuc, ◌≤ℤ◌, eq_ℤ, int32_of}
use go_pub_sub.Text.{Bytes}
use go_pub_sub.GoMap.{get, get-put_self}
use go_pub_sub.Go.{Result, ok, err, invalid_hint}
use go_pub_sub.Storage.{Message, LogStorage, Contract, IsStored, same_log}
use go_pub_sub.Partitions.{
  PartitionManager, Appended, new_lock, get_lock, ensure_topic, get_partition_count, or_zero,
  choose, append, append_to, chosen, store_result,
}
use go_pub_sub.Partitions.Choice.{counter, IsPartition, choose_lem}
use go_pub_sub.Partitions.Locks.{
  IsValid, Keeps, create_topic-IsValid, create_topic-Keeps, create_topic_lem,
}
use go_pub_sub.Partitions.Mutex.{get_lock-IsValid, get_lock-Keeps}

int32_of_partition : (n : ℕ) (p : ℤ) → n ≤ 2 ^ 31 → IsPartition n p → int32_of p ≡ p
int32_of_partition n p h r = ground arith

count_pos : (n : ℤ) → pos 1 ≤ℤ n → (k : ℕ) × (n ≡ pos k) × (0 < k)
count_pos (pos k) h = (k, refl, omega arith)
count_pos (negsuc k) h = absurd (omega arith)

-- The topic is registered afterwards, with the count that `Append` goes on with.
pub ensure_topic_lem :
    (pm : PartitionManager) (t : Bytes)
    → IsValid pm
    → (n : ℕ) × ((ensure_topic pm t).0 ≡ pos n)
      × (0 < n)
      × (n ≤ 2 ^ 31)
      × (get t (ensure_topic pm t).1.partitions ≡ some (pos n))
unfolding ensure_topic
ensure_topic_lem pm t v = elim (Option-cases (get t pm.partitions)) [
  | inl e ↦
      let (_, tables, _) = create_topic_lem pm t (pos 1) (omega arith) e in
      (
        1,
        rw (e, ensure_topic) refl,
        omega arith,
        omega arith,
        rw (e, ensure_topic) (ap (get t) tables ∙ get-put_self t (pos 1) pm.partitions),
      )
  | inr (z, e) ↦
      let (k, is_k, positive) = count_pos z (v.counted t z e).0 in
      let e' : get t pm.partitions ≡ some (pos k) = e ∙ ap some is_k in
      (
        k,
        rw (e', ensure_topic) (ground arith),
        positive,
        ground (arith, v.counted t z e),
        rw (e', ensure_topic) (ground arith),
      )
]

ensure_topic-IsValid :
    (pm : PartitionManager) (t : Bytes) → IsValid pm → IsValid (ensure_topic pm t).1
unfolding ensure_topic
ensure_topic-IsValid pm t v = elim (Bool-cases (eq_ℤ (get_partition_count pm t) (pos 0))) [
  | inl e ↦ rw e (create_topic-IsValid pm t (pos 1) (omega arith) v)
  | inr e ↦ rw e v
]

ensure_topic-Keeps :
    (pm : PartitionManager) (t : Bytes) → IsValid pm → Keeps pm (ensure_topic pm t).1
unfolding ensure_topic
ensure_topic-Keeps pm t v = elim (Bool-cases (eq_ℤ (get_partition_count pm t) (pos 0))) [
  | inl e ↦ rw e (create_topic-Keeps pm t (pos 1) v)
  | inr e ↦ rw e (λ k l q. q)
]

-- The choice moves only the counters.
pub choose_tables :
    (pm : PartitionManager) (t : Bytes) (n hint : ℤ) (key : Bytes)
    → let pm' = (choose pm t n hint key).1 in
      (pm'.partitions ≡ pm.partitions) × (pm'.locks ≡ pm.locks) × (pm'.next_mutex ≡ pm.next_mutex)
unfolding choose
choose_tables pm t n hint key = ground arith

pub IsValid-tables :
    (pm pm' : PartitionManager)
    → (pm'.partitions ≡ pm.partitions) × (pm'.locks ≡ pm.locks) × (pm'.next_mutex ≡ pm.next_mutex)
    → IsValid pm
    → IsValid pm'
IsValid-tables pm pm' (p, l, x) v = record {
  below = λ k n e. subst (λ y. n < y) (sym x) (v.below k n (ap (get k) (sym l) ∙ e));
  apart = λ k j n e f. v.apart k j n (ap (get k) (sym l) ∙ e) (ap (get j) (sym l) ∙ f);
  owned = λ k n e.
      let o = v.owned k n (ap (get k) (sym l) ∙ e) in
      record {
        topic = o.topic;
        partition = o.partition;
        count = o.count;
        key = o.key;
        registered = ap (get o.topic) p ∙ o.registered;
      };
  counted = λ t n e. v.counted t n (ap (get t) (sym p) ∙ e);
}

-- The counter of a topic that `Append` creates starts at 0; that of any other is left.
counter-ensure_topic :
    (pm : PartitionManager) (t : Bytes) (c : ℕ)
    → IsValid pm
    → counter pm t ≡ pos c
    → (d : ℕ) × (counter (ensure_topic pm t).1 t ≡ pos d) × (d ≤ c)
unfolding ensure_topic
counter-ensure_topic pm t c v e = elim (Option-cases (get t pm.partitions)) [
  | inl f ↦
      let (_, _, rr) = create_topic_lem pm t (pos 1) (omega arith) f in
      (
        0,
        rw (f, ensure_topic) (ap (λ m. or_zero (get t m)) rr ∙ rw (get-put_self t (pos 0) pm.rr)),
        omega arith,
      )
  | inr (z, f) ↦
      let (k, is_k, positive) = count_pos z (v.counted t z f).0 in
      let f' : get t pm.partitions ≡ some (pos k) = f ∙ ap some is_k in
      (c, rw (f', ensure_topic) (ground arith), omega arith)
]

pub partitions-get_lock :
    (pm : PartitionManager) (u t : Bytes) (p : ℤ)
    → get u (get_lock pm t p).1.partitions ≡ get u pm.partitions
unfolding get_lock new_lock
partitions-get_lock pm u t p = ground arith

module _ (L : LogStorage) (C : Contract L) where
  open L use {State}
  open C use {Open, log}

  -- the outcome of an append of `m` to partition `p` of topic `t`
  pub record IsPlaced (now : ℕ) (st st' : State) (t : Bytes) (p : ℤ) (m m' : Message)
      (r : Result (ℤ × ℤ)) : Type 0 where
    pub result : r ≡ ok (pos (length (log st t p)), p)
    pub open_ : Open st'
    pub kept : Message
    pub stored : IsStored now (length (log st t p)) (record m { partition = p }) kept
    pub returned : record m' { offset = pos (length (log st t p)) } ≡ kept
    pub logs :
        (u : Bytes) (q : ℤ)
        → log st' u q ≡ (if same_log t p u q then log st u q ++ kept ∷ [] else log st u q)
    pub commits : (g u : Bytes) (q : ℤ) → C.committed st' g u q ≡ C.committed st g u q

  append_to_lem :
      (now n : ℕ) (pm : PartitionManager) (st : State) (t : Bytes) (p : ℤ) (m : Message)
      → n ≤ 2 ^ 31
      → IsPartition n p
      → Open st
      → C.IsMessage (record m { partition = p })
      → let (r, m', pm', st') = append_to L now pm st t p m in
        IsPlaced now st st' t p m m' r × (pm' ≡ (get_lock pm t p).1)
  unfolding append_to store_result
  append_to_lem now n pm st t p m small inside h k =
      let e = int32_of_partition n p small inside in
      let (open_, a, commits) = C.append_lem now st t p (record m { partition = p }) h k (sym e) in
      rw e (
        record {
          result = ap (store_result L p) a.result ∙ ap (λ q. ok (pos (length (log st t p)), q)) e;
          open_ = open_;
          kept = a.kept;
          stored = a.stored;
          returned = a.returned;
          logs = a.logs;
          commits = commits;
        },
        refl,
      )

  -- What `Append` may end in, for a topic that has `n` partitions afterwards.
  abbrev pub Outcome : ℕ → PartitionManager → State → Bytes → ℤ → Message → ℕ → Appended L → Type 0
  Outcome now pm st t hint m n a =
      let (r, m', pm', st') = a in
      (get t pm'.partitions ≡ some (pos n))
      × IsValid pm'
      × Keeps pm pm'
      × (((pos n ≤ℤ hint) × (r ≡ err (invalid_hint hint t (pos n))) × (m' ≡ m) × (st' ≡ st))
          ⊎ ((p : ℤ) × IsPartition n p
              × (pos 0 ≤ℤ hint → p ≡ hint)
              × IsPlaced now st st' t p m m' r))

  -- what holds once the partition manager has chosen, from the state `pm1`
  chosen_lem :
      (now n : ℕ) (pm pm1 : PartitionManager) (st : State) (t : Bytes) (hint p : ℤ) (m : Message)
      → n ≤ 2 ^ 31
      → get t pm1.partitions ≡ some (pos n)
      → IsValid pm1
      → Keeps pm pm1
      → Open st
      → C.IsMessage (record m { partition = p })
      → IsPartition n p
      → (pos 0 ≤ℤ hint → p ≡ hint)
      → Outcome now pm st t hint m n (append_to L now pm1 st t p m)
  chosen_lem now n pm pm1 st t hint p m small registered v keeps h k inside hinted =
      let (placed, locks) = append_to_lem now n pm1 st t p m small inside h k in
      (
        ap (λ (q : PartitionManager). get t q.partitions) locks
            ∙ partitions-get_lock pm1 t t p
            ∙ registered,
        subst IsValid (sym locks) (get_lock-IsValid pm1 t p (pos n) registered v),
        subst (Keeps pm) (sym locks) (λ k l e. get_lock-Keeps pm1 t p k l (keeps k l e)),
        inr (p, inside, hinted, placed),
      )

  -- For a registered or a new topic, with valid tables, a counter short of its 63 bits, an open
  -- store that keeps the contract and a message that it can store, `Append` ends in one of two
  -- ways. Either the hint is not below the topic's partition count, and the error leaves store and
  -- message as they were; or the message is stored at the end of the log of one of the topic's
  -- partitions, the hinted one if there is a hint, its offset is returned, and no committed offset
  -- changes. Either way the topic is registered then, and no partition has changed its mutex.
  pub append-Outcome :
      (now c : ℕ) (pm : PartitionManager) (st : State) (t : Bytes) (hint : ℤ) (key : Bytes)
      (m : Message)
      → IsValid pm
      → counter pm t ≡ pos c
      → c + 1 < 2 ^ 63
      → Open st
      → ((p : ℤ) → C.IsMessage (record m { partition = p }))
      → (n : ℕ) × Outcome now pm st t hint m n (append L now pm st t hint key m)
  unfolding append chosen
  append-Outcome now c pm st t hint key m v ec fits h fit =
      let (n, count, positive, small, registered) = ensure_topic_lem pm t v in
      let (d, ed, le) = counter-ensure_topic pm t c v ec in
      let pm1 = (ensure_topic pm t).1 in
      let keeps1 = ensure_topic-Keeps pm t v in
      let pm2 = (choose pm1 t (pos n) hint key).1 in
      let tables = choose_tables pm1 t (pos n) hint key in
      let v2 = IsValid-tables pm1 pm2 tables (ensure_topic-IsValid pm t v) in
      let registered2 = ap (get t) tables.0 ∙ registered in
      let keeps2 : Keeps pm pm2 = λ k l e. ap (get k) tables.1 ∙ keeps1 k l e in
      let start : (r : Result ℤ)
          → (choose pm1 t (pos n) hint key).0 ≡ r
          → append L now pm st t hint key m ≡ chosen L now st t m (r, pm2) =
        λ r e. rw (count, e) refl in
      (
        n,
        elim (choose_lem pm1 t n d hint key positive small ed (omega arith)) [
          | inl (over, r) ↦
              subst (Outcome now pm st t hint m n) (sym (start _ r))
                (registered2, v2, keeps2, inl (over, refl, refl, refl))
          | inr (p, r, inside, hinted, _) ↦ subst (Outcome now pm st t hint m n) (sym (start _ r)) (
              chosen_lem now n pm pm2 st t hint p m small registered2 v2 keeps2 h (fit p) inside
                hinted)
        ],
      )
