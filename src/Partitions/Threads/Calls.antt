-- ===== src/Partitions/Threads/Calls.antt =====
-- What a call of `Append` of internal/broker/partition_manager.go may rely on while others run, on
-- one Redis store: the mutex of its partition keeps them away from the list.
use go_pub_sub.Prelude.{
  ℕ, zero, suc, ◌≡◌, ◌≢◌, refl, sym, ap, ap₂, ◌∙◌, Bool, true, false, Option, none, some, List, [],
  ◌∷◌, ◌++◌, length, if◌then◌else◌, get_elem?, Bool-cases, inl, inr,
}
use go_pub_sub.Prelude.Int.{pos, int32_of}
use go_pub_sub.GoMap.{get}
use go_pub_sub.Go.{ok}
use go_pub_sub.Storage.{Message, same_log}
use go_pub_sub.Storage.Redis.{RedisStore, with_ts}
use go_pub_sub.Storage.Redis.Server.{Redis, IsServer, Codec, IsEncodable}
use go_pub_sub.Storage.Redis.Log.{
  IsOpen, log, same_log_eq, kept, pushed-IsOpen, push_lem, log-pushed, log-pushed_at,
  list_offset-pushed,
}
use go_pub_sub.Storage.Redis.Log as Log
use go_pub_sub.Partitions.{PartitionManager, tp_key}
use go_pub_sub.Partitions.Locks.{Keeps}
use go_pub_sub.Partitions.Threads.{Job, Phase, starting, waits, locked, pushed, returned, placed}

get_elem?-append :
    {A : Type 0} (xs ys : List A) (n : ℕ) (a : A)
    → get_elem? xs n ≡ some a
    → get_elem? (xs ++ ys) n ≡ some a
get_elem?-append [] ys n a e = absurd (impossible e)
  where
    impossible : none ≡ some a → ⊥
    impossible q = cc
get_elem?-append (x ∷ xs) ys zero a e = e
get_elem?-append (x ∷ xs) ys (suc n) a e = get_elem?-append xs ys n a e

some_injective : {i j : ℕ} → some i ≡ some j → i ≡ j
some_injective e = cc

module _ (R : Redis) (J : Codec) (V : IsServer R) (r : RedisStore) (job : ℕ → Job)
    (fits : (i : ℕ) → IsEncodable J (with_ts (job i).now (placed (job i)))) where
  -- the log of the partition of a call
  abbrev pub log_of : R.State → ℕ → List Message
  log_of st i = log R J V r st (job i).topic (job i).partition

  abbrev pub Locks : PartitionManager → ℕ → ℕ → Type 0
  Locks pm i l = get (tp_key (job i).topic (int32_of (job i).partition)) pm.locks ≡ some l

  -- The message as the call stores it, but for its offset.
  abbrev pub written : ℕ → Message
  written i = with_ts (job i).now (placed (job i))

  -- What a call may rely on in each phase.
  abbrev pub IsCall : PartitionManager → (ℕ → Option ℕ) → R.State → ℕ → Phase → Type 0
  IsCall pm owner st i starting = Unit {0}
  IsCall pm owner st i (waits l) = Locks pm i l
  IsCall pm owner st i (locked l) = Locks pm i l × (owner l ≡ some i)
  IsCall pm owner st i (pushed l m) =
      Locks pm i l
      × (owner l ≡ some i)
      × (m ≡ written i)
      × (xs : List Message) × (log_of st i
          ≡ xs ++ record (written i) { offset = pos (length xs) } ∷ [])
  IsCall pm owner st i (returned m result) =
      (m ≡ written i)
      × (n : ℕ) × (result ≡ ok (pos n))
      × (get_elem? (log_of st i) n ≡ some (record (written i) { offset = pos n }))

  pub Keeps-IsCall :
      (pm pm' : PartitionManager) (owner : ℕ → Option ℕ) (st : R.State) (i : ℕ) (ph : Phase)
      → Keeps pm pm'
      → IsCall pm owner st i ph
      → IsCall pm' owner st i ph
  Keeps-IsCall pm pm' owner st i starting k c = c
  Keeps-IsCall pm pm' owner st i (waits l) k c = k _ _ c
  Keeps-IsCall pm pm' owner st i (locked l) k c = (k _ _ c.0, c.1)
  Keeps-IsCall pm pm' owner st i (pushed l m) k c = (k _ _ c.0, c.1, c.2, c.3, c.4)
  Keeps-IsCall pm pm' owner st i (returned m x) k c = c

  pub owner-IsCall :
      (pm : PartitionManager) (owner owner' : ℕ → Option ℕ) (st : R.State) (i : ℕ) (ph : Phase)
      → ((l : ℕ) → owner l ≡ some i → owner' l ≡ some i)
      → IsCall pm owner st i ph
      → IsCall pm owner' st i ph
  owner-IsCall pm o o' st i starting k c = c
  owner-IsCall pm o o' st i (waits l) k c = c
  owner-IsCall pm o o' st i (locked l) k c = (c.0, k _ c.1)
  owner-IsCall pm o o' st i (pushed l m) k c = (c.0, k _ c.1, c.2, c.3, c.4)
  owner-IsCall pm o o' st i (returned m x) k c = c

  module _ (pm : PartitionManager) (owner : ℕ → Option ℕ) (st : R.State) (i l : ℕ)
      (o : IsOpen R J V r st) (lock : Locks pm i l) (own : owner l ≡ some i) where
    -- the store after the RPUSH of the call `i`, which has the mutex
    unfoldable pub after : R.State
    after =
        Log.pushed R J V r (job i).now st (job i).topic (job i).partition (placed (job i)) o
          (fits i)

    log_of-after :
        (j : ℕ)
        → log_of after j ≡ (
            if same_log (job i).topic (job i).partition (job j).topic (job j).partition
            then log_of st j ++ record (written i) { offset = pos (length (log_of st i)) } ∷ []
            else log_of st j)
    unfolding after
    log_of-after j =
        log-pushed R J V r (job i).now st (job i).topic (job i).partition (placed (job i)) o
          (fits i) (job j).topic (job j).partition

    -- No other call has the mutex of that partition.
    apart :
        (j k : ℕ)
        → i ≢ j
        → Locks pm j k
        → owner k ≡ some j
        → same_log (job i).topic (job i).partition (job j).topic (job j).partition ≡ false
    apart j k d lock' own' =
        elim (Bool-cases
          (same_log (job i).topic (job i).partition (job j).topic (job j).partition)) [
            | inr e ↦ e
            | inl e ↦ absurd (d (same_owner (same_log_eq _ _ _ _ e)))
          ]
      where
        same_lock :
            ((job i).topic ≡ (job j).topic) × ((job i).partition ≡ (job j).partition) → l ≡ k
        same_lock (t, p) =
            some_injective
              (sym lock ∙ ap₂ (λ u q. get (tp_key u (int32_of q)) pm.locks) t p ∙ lock')

        same_owner :
            ((job i).topic ≡ (job j).topic) × ((job i).partition ≡ (job j).partition) → i ≡ j
        same_owner e = some_injective (sym own ∙ ap owner (same_lock e) ∙ own')

    still_there :
        (c : Bool) (xs : List Message) (x a : Message) (n : ℕ)
        → get_elem? xs n ≡ some a
        → get_elem? (if c then xs ++ x ∷ [] else xs) n ≡ some a
    still_there true xs x a n e = get_elem?-append xs (x ∷ []) n a e
    still_there false xs x a n e = e

    pub push-IsCall :
        (j : ℕ) (ph : Phase) → i ≢ j → IsCall pm owner st j ph → IsCall pm owner after j ph
    push-IsCall j starting d c = c
    push-IsCall j (waits k) d c = c
    push-IsCall j (locked k) d c = c
    push-IsCall j (pushed k m) d c = (
      c.0,
      c.1,
      c.2,
      c.3,
      log_of-after j
          ∙ ap
              (λ b.
                if b
                then log_of st j ++ record (written i) { offset = pos (length (log_of st i)) } ∷ []
                else log_of st j)
              (apart j k d c.0 c.1)
          ∙ c.4,
    )
    push-IsCall j (returned m x) d c = (
      c.0,
      c.1,
      c.2,
      ap (λ ms. get_elem? ms c.1) (log_of-after j) ∙ still_there _ (log_of st j) _ _ c.1 c.3,
    )

    pub after-IsOpen : IsOpen R J V r after
    unfolding after
    after-IsOpen =
        pushed-IsOpen R J V r (job i).now st (job i).topic (job i).partition (placed (job i)) o
          (fits i)

    -- the call itself, after its RPUSH
    pub pushed-IsCall : IsCall pm owner after i (pushed l (written i))
    unfolding after
    pushed-IsCall = (
      lock,
      own,
      refl,
      log_of st i,
      log-pushed_at R J V r (job i).now st (job i).topic (job i).partition (placed (job i)) o
          (fits i),
    )
