-- ===== src/Partitions/Locks.antt =====
-- The per-partition mutexes of internal/broker/partition_manager.go: once a partition has a mutex
-- it keeps it, and no two partitions share one.
use go_pub_sub.Prelude.{
  ℕ, zero, suc, ◌+◌, ◌^◌, ◌<◌, ◌≡◌, ◌≢◌, refl, sym, ◌∙◌, false, none, some, arith, Option-cases,
  Bool-cases, inl, inr,
}
use go_pub_sub.Prelude.Int.{ℤ, pos, pos_part, ◌≤ℤ◌, leb_ℤ, int32_of}
use go_pub_sub.Text.{Bytes, bytes_eq_iff, bytes_eq_refl, bytes_eq}
use go_pub_sub.GoMap.{get, put, get-put}
use go_pub_sub.Storage.Memory.Keys.{tkey_injective}
use go_pub_sub.Partitions.{PartitionManager, tp_key, new_lock, init_locks, register, create_topic}

-- A lock belongs to a partition of a registered topic.
pub record IsOwned (pm : PartitionManager) (k : Bytes) : Type 0 where
  pub topic : Bytes
  pub partition : ℤ
  pub count : ℤ
  pub key : k ≡ tp_key topic partition
  pub registered : get topic pm.partitions ≡ some count

pub record IsValid (pm : PartitionManager) : Type 0 where
  pub below : (k : Bytes) (l : ℕ) → get k pm.locks ≡ some l → l < pm.next_mutex
  pub apart : (k j : Bytes) (l : ℕ) → get k pm.locks ≡ some l → get j pm.locks ≡ some l → k ≡ j
  pub owned : (k : Bytes) (l : ℕ) → get k pm.locks ≡ some l → IsOwned pm k
  pub counted :
      (t : Bytes) (n : ℤ) → get t pm.partitions ≡ some n → (pos 1 ≤ℤ n) × (n ≤ℤ pos (2 ^ 31))

-- Every mutex of `pm` is the mutex of the same partition in `pm'`.
abbrev pub Keeps : PartitionManager → PartitionManager → Type 0
Keeps pm pm' = (k : Bytes) (l : ℕ) → get k pm.locks ≡ some l → get k pm'.locks ≡ some l

-- One new lock; its owner is known.
pub new_lock-IsValid :
    (pm : PartitionManager) (key : Bytes) → IsValid pm → IsOwned pm key → IsValid (new_lock pm key)
unfolding new_lock
new_lock-IsValid pm key v o = record {
  below = λ k l e. ground (arith, get-put key k pm.next_mutex pm.locks, v.below k l);
  apart = λ k j l e f. ground (
    arith,
    get-put key k pm.next_mutex pm.locks,
    get-put key j pm.next_mutex pm.locks,
    bytes_eq_iff key k,
    bytes_eq_iff key j,
    v.below k l,
    v.below j l,
    v.apart k j l,
  );
  owned = λ k l e. elim (Bool-cases (bytes_eq key k)) [
    | inl same ↦
        let same' : key ≡ k = (bytes_eq_iff key k).0 same in
        record {
          topic = o.topic;
          partition = o.partition;
          count = o.count;
          key = sym same' ∙ o.key;
          registered = o.registered;
        }
    | inr other ↦
        let w = v.owned k l (ground (arith, get-put key k pm.next_mutex pm.locks)) in
        record {
          topic = w.topic;
          partition = w.partition;
          count = w.count;
          key = w.key;
          registered = w.registered;
        }
  ];
  counted = v.counted;
}

partitions-init_locks :
    (n p : ℕ) (t : Bytes) (pm : PartitionManager) → (init_locks n p t pm).partitions ≡ pm.partitions
unfolding init_locks new_lock
partitions-init_locks zero p t pm = refl
partitions-init_locks (suc n) p t pm = partitions-init_locks n (p + 1) t _

init_locks-IsValid :
    (n p : ℕ) (t : Bytes) (count : ℤ) (pm : PartitionManager)
    → get t pm.partitions ≡ some count
    → IsValid pm
    → IsValid (init_locks n p t pm)
unfolding init_locks
init_locks-IsValid zero p t count pm r v = v
init_locks-IsValid (suc n) p t count pm r v =
    init_locks-IsValid n (p + 1) t count (new_lock pm key) (unfold new_lock in r) (
      new_lock-IsValid pm key v (record {
        topic = t;
        partition = int32_of (pos p);
        count = count;
        key = refl;
        registered = r;
      }))
  where
    key : Bytes
    key = tp_key t (int32_of (pos p))

-- The loop of `CreateTopic` writes no lock but those of its topic.
get-init_locks :
    (n p : ℕ) (t k : Bytes) (pm : PartitionManager)
    → ((q : ℤ) → tp_key t q ≢ k)
    → get k (init_locks n p t pm).locks ≡ get k pm.locks
unfolding init_locks new_lock
get-init_locks zero p t k pm h = refl
get-init_locks (suc n) p t k pm h =
    get-init_locks n (p + 1) t k _ h
    ∙ ground (
      arith,
      get-put (tp_key t (int32_of (pos p))) k pm.next_mutex pm.locks,
      bytes_eq_iff (tp_key t (int32_of (pos p))) k,
      h (int32_of (pos p)),
    )

-- `pm` with the topic in its tables, before the locks of its partitions are made.
abbrev registered : PartitionManager → Bytes → ℤ → PartitionManager
registered pm t n = record pm { partitions = put t n pm.partitions; rr = put t (pos 0) pm.rr }

registered-IsOwned :
    (pm : PartitionManager) (t k : Bytes) (n : ℤ) → IsOwned pm k → IsOwned (registered pm t n) k
registered-IsOwned pm t k n o = elim (Bool-cases (bytes_eq t o.topic)) [
  | inl same ↦ record {
    topic = o.topic;
    partition = o.partition;
    count = n;
    key = o.key;
    registered = rw (get-put, same);
  }
  | inr other ↦ record {
    topic = o.topic;
    partition = o.partition;
    count = o.count;
    key = o.key;
    registered = rw (get-put, other) o.registered;
  }
]

registered-IsValid :
    (pm : PartitionManager) (t : Bytes) (n : ℤ)
    → pos 1 ≤ℤ n
    → n ≤ℤ pos (2 ^ 31)
    → IsValid pm
    → IsValid (registered pm t n)
registered-IsValid pm t n lo hi v = record {
  below = v.below;
  apart = v.apart;
  owned = λ k l e. registered-IsOwned pm t k n (v.owned k l e);
  counted = λ s q e. ground (arith, get-put t s n pm.partitions, v.counted s q);
}

ge→not_leb : (n : ℤ) → pos 1 ≤ℤ n → leb_ℤ n (pos 0) ≡ false
ge→not_leb n h = ground arith

-- `CreateTopic` of any count up to 2^31 keeps the tables valid, whether it succeeds or not.
pub create_topic-IsValid :
    (pm : PartitionManager) (t : Bytes) (n : ℤ)
    → n ≤ℤ pos (2 ^ 31)
    → IsValid pm
    → IsValid (create_topic pm t n).1
unfolding create_topic register
create_topic-IsValid pm t n hi v = elim (Bool-cases (leb_ℤ n (pos 0))) [
  | inl none_ ↦ simp none_ v
  | inr some_ ↦ elim (Option-cases (get t pm.partitions)) [
    | inr (_, e) ↦ rw (some_, e, create_topic) v
    | inl e ↦
        rw (some_, e, create_topic)
          (init_locks-IsValid (pos_part n) 0 t n (registered pm t n) (simp (get-put, bytes_eq_refl))
            (registered-IsValid pm t n (ground arith) hi v))
  ]
]

rr-init_locks : (n p : ℕ) (t : Bytes) (pm : PartitionManager) → (init_locks n p t pm).rr ≡ pm.rr
unfolding init_locks new_lock
rr-init_locks zero p t pm = refl
rr-init_locks (suc n) p t pm = rr-init_locks n (p + 1) t _

-- `CreateTopic` of a new topic with a positive count succeeds, and registers that topic with that
-- count and a counter of 0, and no other.
pub create_topic_lem :
    (pm : PartitionManager) (t : Bytes) (n : ℤ)
    → pos 1 ≤ℤ n
    → get t pm.partitions ≡ none
    → let (e, pm') = create_topic pm t n in
      (e ≡ none) × (pm'.partitions ≡ put t n pm.partitions) × (pm'.rr ≡ put t (pos 0) pm.rr)
unfolding create_topic register
create_topic_lem pm t n lo e =
    rw (ge→not_leb n lo, e, create_topic)
      (
        refl,
        partitions-init_locks (pos_part n) 0 t (registered pm t n),
        rr-init_locks (pos_part n) 0 t (registered pm t n),
      )

-- `CreateTopic` of a topic that is registered changes nothing.
pub create_topic_again :
    (pm : PartitionManager) (t : Bytes) (n z : ℤ)
    → get t pm.partitions ≡ some z
    → (create_topic pm t n).1 ≡ pm
unfolding create_topic
create_topic_again pm t n z e = ground arith

-- It changes no mutex that a partition has.
pub create_topic-Keeps :
    (pm : PartitionManager) (t : Bytes) (n : ℤ) → IsValid pm → Keeps pm (create_topic pm t n).1
unfolding create_topic register
create_topic-Keeps pm t n v k l e = elim (Bool-cases (leb_ℤ n (pos 0))) [
  | inl none_ ↦ simp none_ e
  | inr some_ ↦ elim (Option-cases (get t pm.partitions)) [
    | inr (_, f) ↦ rw (some_, f, create_topic) e
    | inl f ↦
        let o = v.owned k l e in
        rw (some_, f, create_topic)
          (get-init_locks (pos_part n) 0 t k (registered pm t n) (λ q same.
              cc (f, o.registered, (tkey_injective t o.topic q o.partition (same ∙ o.key)).0))
            ∙ e)
  ]
]
