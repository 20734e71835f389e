-- ===== src/Partitions/Threads/Offsets.antt =====
-- Calls of `Append` of internal/broker/partition_manager.go on one Redis store at the same time:
-- what each returns, since the mutex of its partition keeps the others away from the list.
use go_pub_sub.Prelude.{
  ℕ, ◌≡◌, ◌≢◌, refl, sym, ap, ◌∙◌, subst, none, some, length, length-append, get_elem?,
  get_elem?_at_length,
}
use go_pub_sub.Runs.{set_at, set_at-cases}
use go_pub_sub.Prelude.Int.{ℤ, pos}
use go_pub_sub.Go.{Result, ok}
use go_pub_sub.Storage.{Message}
use go_pub_sub.Storage.Redis.{RedisStore, with_ts, push}
use go_pub_sub.Storage.Redis.Server.{Redis, IsServer, Codec, IsEncodable}
use go_pub_sub.Storage.Redis.Log.{IsOpen, push_lem, list_offset_lem}
use go_pub_sub.Partitions.{PartitionManager}
use go_pub_sub.Partitions.Mutex.{get_lock-Keeps, get_lock_lem}
use go_pub_sub.Partitions.Threads.{
  Job, Phase, pushed, returned, placed, Threads, return_from, after_rpush, Step, gets, locks,
  pushes, measures, Reach, start, stepped, changed,
}
use go_pub_sub.Partitions.Threads.Calls.{
  log_of, Locks, written, IsCall, Keeps-IsCall, owner-IsCall, after, push-IsCall, after-IsOpen,
  pushed-IsCall,
}

module _ (R : Redis) (J : Codec) (V : IsServer R) (r : RedisStore) (job : ℕ → Job)
    (fits : (i : ℕ) → IsEncodable J (with_ts (job i).now (placed (job i)))) (calls : ℕ) where
  impossible : {i : ℕ} → none ≡ some i → ⊥
  impossible q = cc

  some_injective : {i j : ℕ} → some i ≡ some j → i ≡ j
  some_injective e = cc

  record IsRunning (s : Threads R J r job calls) : Type 0 where
    open_ : IsOpen R J V r s.store
    each : (i : ℕ) → IsCall R J V r job fits s.pm s.owner s.store i (s.phase i)

  -- A step of the call `i` keeps what the others rely on, and gives it what it needs next.
  step_of :
      (s t : Threads R J r job calls) (i : ℕ) (ph : Phase)
      → t.phase ≡ set_at i ph s.phase
      → IsOpen R J V r t.store
      → IsCall R J V r job fits t.pm t.owner t.store i ph
      → ((j : ℕ) → i ≢ j → IsCall R J V r job fits t.pm t.owner t.store j (s.phase j))
      → IsRunning t
  step_of s t i ph e o own rest = record {
    open_ = o;
    each = λ j.
        subst (λ f. IsCall R J V r job fits t.pm t.owner t.store j (f j)) (sym e)
          (set_at-cases (IsCall R J V r job fits t.pm t.owner t.store j) i j ph s.phase
            (λ q. subst (λ k. IsCall R J V r job fits t.pm t.owner t.store k ph) q own) (rest j));
  }

  IsCall-at :
      (s : Threads R J r job calls) (i : ℕ) (ph : Phase)
      → IsRunning s
      → s.phase i ≡ ph
      → IsCall R J V r job fits s.pm s.owner s.store i ph
  IsCall-at s i ph h e = subst (IsCall R J V r job fits s.pm s.owner s.store i) e (h.each i)

  after_rpush-eq :
      (s : Threads R J r job calls) (i l : ℕ) (o : IsOpen R J V r s.store)
      (lock : Locks R J V r job fits s.pm i l) (own : s.owner l ≡ some i)
      → after_rpush R J r job calls i l s
          (push R J (job i).now r s.store (job i).topic (job i).partition (placed (job i)))
        ≡ record s {
          store = after R J V r job fits s.pm s.owner s.store i l o lock own;
          phase = set_at i (pushed l (written R J V r job fits i)) s.phase;
        }
  unfolding after after_rpush
  after_rpush-eq s i l o lock own = ap (after_rpush R J r job calls i l s) (
      push_lem R J V r (job i).now s.store (job i).topic (job i).partition (placed (job i)) o
        (fits i))

  Step-IsRunning :
      (s t : Threads R J r job calls) → Step R J r job calls s t → IsRunning s → IsRunning t
  unfolding return_from
  Step-IsRunning s t (gets i _ e) h = step_of s t i _ refl h.open_ (get_lock_lem s.pm _ _) (λ j _.
      Keeps-IsCall R J V r job fits s.pm t.pm s.owner s.store j _ (get_lock-Keeps s.pm _ _)
        (h.each j))
  Step-IsRunning s t (locks i l _ e free) h =
      step_of s t i _ refl h.open_
        (
          IsCall-at s i _ h e,
          set_at-cases (λ x. x ≡ some i) l l (some i) s.owner (λ _. refl) (λ d. absurd (d refl)),
        )
        (λ j _.
          owner-IsCall R J V r job fits s.pm s.owner t.owner s.store j _ (kept_by j) (h.each j))
    where
      kept_by : (j k : ℕ) → s.owner k ≡ some j → set_at l (some i) s.owner k ≡ some j
      kept_by j k own =
          set_at-cases (λ x. x ≡ some j) l k (some i) s.owner
            (λ same. absurd (impossible (sym free ∙ ap s.owner same ∙ own))) (λ _. own)
  Step-IsRunning s t (pushes i l _ e) h =
      let (lock, own) = IsCall-at s i _ h e in
      subst IsRunning (sym (after_rpush-eq s i l h.open_ lock own)) (
        step_of s _ i _ refl
          (after-IsOpen R J V r job fits s.pm s.owner s.store i l h.open_ lock own)
          (pushed-IsCall R J V r job fits s.pm s.owner s.store i l h.open_ lock own)
          (λ j d.
            push-IsCall R J V r job fits s.pm s.owner s.store i l h.open_ lock own j _ d
              (h.each j)))
  Step-IsRunning s t (measures i l m _ e) h =
      let (lock, own, same, xs, last) = IsCall-at s i _ h e in
      step_of s t i _ refl h.open_
        (
          same,
          length xs,
          list_offset_lem R J V r s.store (job i).topic (job i).partition (length xs) h.open_
              (ap length last ∙ length-append xs _ ∙ refl),
          ap (λ ms. get_elem? ms (length xs)) last ∙ get_elem?_at_length xs _,
        )
        (λ j d.
          owner-IsCall R J V r job fits s.pm s.owner t.owner s.store j _ (kept_by own j d)
            (h.each j))
    where
      kept_by :
          s.owner l ≡ some i
          → (j : ℕ) → i ≢ j
          → (k : ℕ) → s.owner k ≡ some j
          → set_at l none s.owner k ≡ some j
      kept_by own j d k own' =
          set_at-cases (λ x. x ≡ some j) l k none s.owner
            (λ same. absurd (d (some_injective (sym own ∙ ap s.owner same ∙ own')))) (λ _. own')

  Reach-IsRunning :
      (pm : PartitionManager) (st : R.State) (s : Threads R J r job calls)
      → IsOpen R J V r st
      → Reach R J r job calls pm st s
      → IsRunning s
  Reach-IsRunning pm st s o start = record { open_ = o; each = λ _. tt }
  Reach-IsRunning pm st s o (stepped {s = u} run step) =
      Step-IsRunning u s step (Reach-IsRunning pm st u o run)
  Reach-IsRunning pm st s o (changed {s = u} run pm' k) =
      let h = Reach-IsRunning pm st u o run in
      record {
        open_ = h.open_;
        each = λ j. Keeps-IsCall R J V r job fits u.pm pm' u.owner u.store j _ k (h.each j);
      }

  -- Calls of `Append` that run at the same time in one process, on a Redis server that is reached,
  -- holds what the store has written and is written to by nobody else, with messages that its JSON
  -- reads back, return no error: whichever way their commands take turns, the offset that a call
  -- returns is the one at which the log of its partition then has the call's message.
  pub offsets_apart :
      (pm : PartitionManager) (st : R.State) (s : Threads R J r job calls) (i : ℕ) (m : Message)
      (result : Result ℤ)
      → IsOpen R J V r st
      → Reach R J r job calls pm st s
      → s.phase i ≡ returned m result
      → (n : ℕ) × (result ≡ ok (pos n))
        × (get_elem? (log_of R J V r job fits s.store i) n ≡ some (record m { offset = pos n }))
  offsets_apart pm st s i m result o run e =
      let (same, n, ok_, there) = IsCall-at s i _ (Reach-IsRunning pm st s o run) e in
      (n, ok_, there ∙ ap {A = Message} (λ x. some (record x { offset = pos n })) (sym same))
