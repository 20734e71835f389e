-- ===== src/Partitions/Threads/Returns.antt =====
-- Calls of `Append` of internal/broker/partition_manager.go at the same time do not wait for each
-- other for good.
use go_pub_sub.Prelude.{
  ℕ, ◌≤◌, ◌<◌, ◌≡◌, ◌≢◌, refl, sym, ap, ◌∙◌, subst, Bool, true, false, Option, none, some, arith,
  ◌⊎◌, inl, inr,
}
use mathlib.Core.Bool.{true≢false}
use go_pub_sub.Runs.{
  Inevitable, IsAble, inevitable_lem, set_at, set_at-cases, search_below, total, total-less,
}
use go_pub_sub.Prelude.Int.{ℤ}
use go_pub_sub.Go.{Error, Result, err}
use go_pub_sub.Storage.{Message}
use go_pub_sub.Storage.Redis.{RedisStore}
use go_pub_sub.Storage.Redis.Server.{Redis, Codec}
use go_pub_sub.Partitions.{PartitionManager}
use go_pub_sub.Partitions.Threads.{
  Job, Phase, starting, waits, locked, pushed, returned, Threads, return_from, after_rpush, Step,
  gets, locks, pushes, measures, Reach, start, stepped, changed,
}

abbrev pub phase_weight : Phase → ℕ
phase_weight starting = 4
phase_weight (waits l) = 3
phase_weight (locked l) = 2
phase_weight (pushed l m) = 1
phase_weight (returned m x) = 0

abbrev pub is_returned : Phase → Bool
is_returned (returned m x) = true
is_returned _ = false

-- The call has this mutex.
abbrev HasLock : ℕ → Phase → Type 0
HasLock l (locked k) = k ≡ l
HasLock l (pushed k m) = k ≡ l
HasLock l _ = ⊥

module _ (R : Redis) (J : Codec) (r : RedisStore) (job : ℕ → Job) (calls : ℕ) where
  abbrev System : Type 0
  System = Threads R J r job calls

  abbrev Move : System → System → Type 0
  Move = Step R J r job calls

  weight : System → ℕ
  weight s = total (λ i. phase_weight (s.phase i)) calls

  set-weight :
      (s t : System) (i : ℕ) (ph : Phase)
      → t.phase ≡ set_at i ph s.phase
      → i < calls
      → phase_weight ph < phase_weight (s.phase i)
      → weight t < weight s
  unfolding weight
  set-weight s t i ph e below less =
      subst (λ f. total (λ j. phase_weight (f j)) calls < weight s) (sym e)
        (total-less (λ j. phase_weight (s.phase j)) (λ j. phase_weight (set_at i ph s.phase j))
          calls i
          (λ j.
            set_at-cases (λ x. phase_weight x ≤ phase_weight (s.phase j)) i j ph s.phase
              (λ q. subst (λ k. phase_weight ph ≤ phase_weight (s.phase k)) q (omega arith))
              (λ _. omega arith))
          below
          (set_at-cases (λ x. phase_weight x < phase_weight (s.phase i)) i i ph s.phase (λ _. less)
            (λ d. absurd (d refl))))

  rpush-weight :
      (s : System) (i l : ℕ) (x : Option Error × Message × R.State)
      → i < calls
      → s.phase i ≡ locked l
      → weight (after_rpush R J r job calls i l s x) < weight s
  unfolding after_rpush return_from
  rpush-weight s i l (none, m, st) below e =
      let w = ap phase_weight e in set-weight s _ i (pushed l m) refl below (omega arith)
  rpush-weight s i l (some x, m, st) below e =
      let w = ap phase_weight e in set-weight s _ i (returned m (err x)) refl below (omega arith)

  Step-weight : (s t : System) → Move s t → weight t < weight s
  unfolding return_from
  Step-weight s t (gets i below e) =
      let w = ap phase_weight e in set-weight s t i _ refl below (omega arith)
  Step-weight s t (locks i l below e _) =
      let w = ap phase_weight e in set-weight s t i (locked l) refl below (omega arith)
  Step-weight s t (pushes i l below e) = rpush-weight s i l _ below e
  Step-weight s t (measures i l m below e) =
      let w = ap phase_weight e in set-weight s t i _ refl below (omega arith)

  -- Whoever has a mutex is one of the calls, between `lock.Lock()` and its return.
  abbrev IsHeld : System → Type 0
  IsHeld s = (l i : ℕ) → s.owner l ≡ some i → (i < calls) × HasLock l (s.phase i)

  set-IsHeld :
      (s t : System) (i : ℕ) (ph : Phase)
      → t.phase ≡ set_at i ph s.phase
      → ((l j : ℕ) → t.owner l ≡ some j → i ≢ j → s.owner l ≡ some j)
      → ((l : ℕ) → t.owner l ≡ some i → (i < calls) × HasLock l ph)
      → IsHeld s
      → IsHeld t
  set-IsHeld s t i ph e others own h l j at_ =
      subst (λ f. (j < calls) × HasLock l (f j)) (sym e)
        (set_at-cases (λ x. (j < calls) × HasLock l x) i j ph s.phase
          (λ q. let o = own l (at_ ∙ ap some (sym q)) in (subst (λ k. k < calls) q o.0, o.1))
          (λ d. h l j (others l j at_ d)))

  impossible : {i : ℕ} → none ≡ some i → ⊥
  impossible q = cc

  -- A call that has the mutex `l` returns.
  return-IsHeld :
      (s : System) (i l : ℕ) (m : Message) (x : Result ℤ) (ph : Phase)
      → s.phase i ≡ ph
      → ((k : ℕ) → HasLock k ph → l ≡ k)
      → IsHeld s
      → IsHeld (return_from R J r job calls i l m x s)
  unfolding return_from
  return-IsHeld s i l m x ph e only h =
      set-IsHeld s (return_from R J r job calls i l m x s) i (returned m x) refl
        (λ k j.
          set_at-cases (λ o. o ≡ some j → i ≢ j → s.owner k ≡ some j) l k none s.owner
            (λ _ q _. absurd (impossible q)) (λ _ q _. q))
        (λ k.
          set_at-cases (λ o. o ≡ some i → (i < calls) × HasLock k (returned m x)) l k none s.owner
            (λ _ q. absurd (impossible q))
            (λ d q. absurd (d (only k (subst (HasLock k) e (h k i q).1)))))
        h

  rpush-IsHeld :
      (s : System) (i l : ℕ) (x : Option Error × Message × R.State)
      → s.phase i ≡ locked l
      → IsHeld s
      → IsHeld (after_rpush R J r job calls i l s x)
  unfolding after_rpush
  rpush-IsHeld s i l (none, m, st) e h =
      set-IsHeld s (after_rpush R J r job calls i l s (none, m, st)) i (pushed l m) refl
        (λ _ _ q _. q) (λ k q. let (below, has) = h k i q in (below, subst (HasLock k) e has)) h
  rpush-IsHeld s i l (some x, m, st) e h =
      return-IsHeld (record s { store = st }) i l m (err x) (locked l) e (λ k q. q) h

  Step-IsHeld : (s t : System) → Move s t → IsHeld s → IsHeld t
  Step-IsHeld s t (gets i _ e) h =
      set-IsHeld s t i _ refl (λ _ _ q _. q) (λ k q. absurd (subst (HasLock k) e (h k i q).1)) h
  Step-IsHeld s t (locks i l below e free) h =
      set-IsHeld s t i (locked l) refl
        (λ k j.
          set_at-cases (λ o. o ≡ some j → i ≢ j → s.owner k ≡ some j) l k (some i) s.owner
            (λ _ q d. absurd (d (some_injective q))) (λ _ q _. q))
        (λ k.
          set_at-cases (λ o. o ≡ some i → (i < calls) × (l ≡ k)) l k (some i) s.owner
            (λ same _. (below, same)) (λ _ q. absurd (subst (HasLock k) e (h k i q).1)))
        h
    where
      some_injective : {a b : ℕ} → some a ≡ some b → a ≡ b
      some_injective q = cc
  Step-IsHeld s t (pushes i l _ e) h = rpush-IsHeld s i l _ e h
  Step-IsHeld s t (measures i l m _ e) h = return-IsHeld s i l m _ (pushed l m) e (λ k q. q) h

  Reach-IsHeld :
      (pm : PartitionManager) (st : R.State) (s : System) → Reach R J r job calls pm st s → IsHeld s
  Reach-IsHeld pm st s start = λ l i q. absurd (impossible q)
  Reach-IsHeld pm st s (stepped {s = u} run step) = Step-IsHeld u s step (Reach-IsHeld pm st u run)
  Reach-IsHeld pm st s (changed {s = u} run pm' _) = Reach-IsHeld pm st u run

  abbrev AllReturned : System → Type 0
  AllReturned s = (i : ℕ) → i < calls → is_returned (s.phase i) ≡ true

  -- A call that has a mutex can go on.
  goes_on : (s : System) (j l : ℕ) → j < calls → HasLock l (s.phase j) → IsAble Move s
  goes_on s j l below = at_ (s.phase j) refl
    where
      at_ : (ph : Phase) → s.phase j ≡ ph → HasLock l ph → IsAble Move s
      at_ (locked k) e _ = (_, pushes j k below e)
      at_ (pushed k m) e _ = (_, measures j k m below e)
      at_ starting _ f = absurd f
      at_ (waits k) _ f = absurd f
      at_ (returned m x) _ f = absurd f

  able : (s : System) → IsHeld s → AllReturned s ⊎ IsAble Move s
  able s h = elim (search_below (λ i. is_returned (s.phase i)) calls) [
    | inl all ↦ inl all
    | inr (i, below, f) ↦ inr (at_ i (s.phase i) refl below f)
  ]
    where
      or_owner :
          (i l : ℕ)
          → s.phase i ≡ waits l
          → i < calls
          → (o : Option ℕ) → s.owner l ≡ o
          → IsAble Move s
      or_owner i l e below none free = (_, locks i l below e free)
      or_owner i l e below (some j) taken = let (b, has) = h l j taken in goes_on s j l b has

      at_ :
          (i : ℕ) (ph : Phase) → s.phase i ≡ ph → i < calls → is_returned ph ≡ false → IsAble Move s
      at_ i starting e below _ = (_, gets i below e)
      at_ i (waits l) e below _ = or_owner i l e below (s.owner l) refl
      at_ i (locked l) e below _ = (_, pushes i l below e)
      at_ i (pushed l m) e below _ = (_, measures i l m below e)
      at_ i (returned m x) e below f = absurd (true≢false f)

  -- Calls of `Append` that run at the same time all return, whichever of them goes on next and
  -- whatever the Redis server answers, once the other calls of the manager are over: no two calls
  -- wait for each other's mutex.
  pub all_return :
      (pm : PartitionManager) (st : R.State) (s : System)
      → Reach R J r job calls pm st s
      → Inevitable
          (Step R J r job calls)
          (λ t. (i : ℕ) → i < calls → is_returned (t.phase i) ≡ true)
          s
  all_return pm st s run =
      inevitable_lem Move AllReturned IsHeld weight (λ u v m _. Step-weight u v m) Step-IsHeld able
        s (Reach-IsHeld pm st s run)
