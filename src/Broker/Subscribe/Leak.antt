-- ===== src/Broker/Subscribe/Leak.antt =====
-- The channels that a group's subscription of internal/broker/broker.go has registered when it
-- ends.
use go_pub_sub.Prelude.{
  ℕ, ◌+◌, ◌≤◌, ◌≡◌, refl, sym, ap, ◌∙◌, subst, false, some, List, [], ◌∷◌, ◌++◌, arith, Bool-cases,
  Option-cases, inl, inr, length, append-nil, append_assoc, length-append,
}
use go_pub_sub.Prelude.Int.{ℤ, pos, eq_ℤ}
use go_pub_sub.Text.{Bytes}
use go_pub_sub.GoMap.{RangeOrder}
use go_pub_sub.Go.{Result, ok, err, panic, no_partitions}
use go_pub_sub.Storage.{LogStorage}
use go_pub_sub.Topics.{validate_partition}
use go_pub_sub.Groups.{join}
use go_pub_sub.Partitions.{get_partition_count}
use go_pub_sub.Broker.{Broker}
use go_pub_sub.Broker.Channels.{register}
use go_pub_sub.Broker.Channels.Phases.{contains}
use go_pub_sub.Broker.Subscribe.{
  Stream, SubscribeRequest, Flow, continues, returns, panics, Registration, Attached, attach,
  attach_one, and_then, attach_all, leave_group, end_early, after_join, subscribe_group, end_group,
}
use go_pub_sub.Broker.Subscribe.Cleanup.{
  channels_at, channels_of, IsNumbered, channels_at-add, channels_of-append, IsNumbered-append,
  unregister_all_lem,
}

continues_injective : {x y : List Registration} → continues x ≡ continues y → x ≡ y
continues_injective e = cc

module _ (L : LogStorage) where
  -- What a piece of the loop over the partitions did: it put the channels from `n` on behind those
  -- that stood under their keys, and if the loop goes on, their registrations are recorded.
  pub record IsAttached {S : Type 0} (n : ℕ) (regs : List Registration) (b : Broker L)
      (a : Attached L S) : Type 0 where
    pub added : List Registration
    pub next : a.1 ≡ n + length added
    pub numbered : IsNumbered n added
    pub stands : (k : Bytes) → channels_at k a.2.subs ≡ channels_at k b.subs ++ channels_of k added
    pub recorded : (regs' : List Registration) → a.0 ≡ continues regs' → regs' ≡ regs ++ added

  module _ {S : Type 0} where
    unchanged-IsAttached :
        (n : ℕ) (regs : List Registration) (b : Broker L) (f : Flow (List Registration)) (w : S)
        → ((regs' : List Registration) → f ≡ continues regs' → regs' ≡ regs)
        → IsAttached n regs b (f, n, b, w)
    unchanged-IsAttached n regs b f w h = record {
      added = [];
      next = omega arith;
      numbered = tt;
      stands = λ k. sym (append-nil (channels_at k b.subs));
      recorded = λ regs' e. h regs' e ∙ sym (append-nil regs);
    }

    attach-IsAttached :
        (key : Bytes) (n : ℕ) (regs : List Registration) (b : Broker L) (r : Flow (Unit {0}) × S)
        → IsAttached n regs b (attach L key n regs b r)
    unfolding attach register
    attach-IsAttached key n regs b (continues _, w) = record {
      added = record { key = key; channel = n } ∷ [];
      next = omega arith;
      numbered = (refl, tt);
      stands = λ k. channels_at-add n key k b.subs;
      recorded = λ regs' e. sym (continues_injective e);
    }
    attach-IsAttached key n regs b (returns e, w) =
        unchanged-IsAttached n regs b (returns e) w (λ regs' q. absurd (cc q))
    attach-IsAttached key n regs b (panics, w) =
        unchanged-IsAttached n regs b panics w (λ regs' q. absurd (cc q))

    and_then-IsAttached :
        (n : ℕ) (regs : List Registration) (b : Broker L) (a : Attached L S)
        (next : List Registration → ℕ → Broker L → S → Attached L S)
        → IsAttached n regs b a
        → ((regs' : List Registration) (n' : ℕ) (b' : Broker L) (w' : S)
            → IsAttached n' regs' b' (next regs' n' b' w'))
        → IsAttached n regs b (and_then L a next)
    and_then-IsAttached n regs b (continues regs1, n1, b1, w1) next h rest =
        let h' = rest regs1 n1 b1 w1 in
        record {
          added = h.added ++ h'.added;
          next =
              h'.next
              ∙ ap (λ i. i + length h'.added) h.next
              ∙ omega (arith, length-append h.added h'.added);
          numbered =
              IsNumbered-append n h.added h'.added h.numbered
                (subst (λ i. IsNumbered i h'.added) h.next h'.numbered);
          stands = λ k.
              h'.stands k
              ∙ ap (λ cs. cs ++ channels_of k h'.added) (h.stands k)
              ∙ append_assoc (channels_at k b.subs) _ _
              ∙ ap (λ cs. channels_at k b.subs ++ cs) (sym (channels_of-append k h.added h'.added));
          recorded = λ regs' e.
              h'.recorded regs' e
              ∙ ap (λ rs. rs ++ h'.added) (h.recorded regs1 refl)
              ∙ append_assoc regs h.added h'.added;
        }
    and_then-IsAttached n regs b (returns e, n1, b1, w1) next h rest = h
    and_then-IsAttached n regs b (panics, n1, b1, w1) next h rest = h

  module _ (W : Stream) (req : SubscribeRequest) where
    attach_one-IsAttached :
        (p : ℤ) (n : ℕ) (regs : List Registration) (b : Broker L) (w : W.State)
        → IsAttached n regs b (attach_one L W req p n regs b w)
    unfolding attach_one
    attach_one-IsAttached p n regs b w = elim (Option-cases (validate_partition b.tm req.topic p)) [
      | inl valid ↦ rw (valid, attach_one) (attach-IsAttached _ n regs b _)
      | inr (e, invalid) ↦
          rw (invalid, attach_one)
            (unchanged-IsAttached n regs b (continues regs) w
              (λ regs' q. sym (continues_injective q)))
    ]

    attach_all-IsAttached :
        (ps : List ℤ) (n : ℕ) (regs : List Registration) (b : Broker L) (w : W.State)
        → IsAttached n regs b (attach_all L W req ps n regs b w)
    unfolding attach_all
    attach_all-IsAttached [] n regs b w =
        unchanged-IsAttached n regs b (continues regs) w (λ regs' q. sym (continues_injective q))
    attach_all-IsAttached (p ∷ ps) n regs b w =
        and_then-IsAttached n regs b (attach_one L W req p n regs b w) _
          (attach_one-IsAttached p n regs b w)
          (λ regs' n' b' w'. attach_all-IsAttached ps n' regs' b' w')

  -- A `Leave` on the way out, and the `Join` at the start, change no channel.
  end_early-IsAttached :
      {S : Type 0} (order : RangeOrder) (member : Bytes) (req : SubscribeRequest) (partitions : ℤ)
      (n : ℕ) (b : Broker L) (a : Attached L S)
      → IsAttached n [] b a
      → IsAttached n [] b (end_early L order member req partitions a)
  unfolding end_early leave_group
  end_early-IsAttached order member req partitions n b (continues regs, n', b', w) h = h
  end_early-IsAttached order member req partitions n b (returns e, n', b', w) h = record {
    added = h.added;
    next = h.next;
    numbered = h.numbered;
    stands = h.stands;
    recorded = h.recorded;
  }
  end_early-IsAttached order member req partitions n b (panics, n', b', w) h = record {
    added = h.added;
    next = h.next;
    numbered = h.numbered;
    stands = h.stands;
    recorded = h.recorded;
  }

  after_join-IsAttached :
      (W : Stream) (order : RangeOrder) (member : Bytes) (req : SubscribeRequest) (partitions : ℤ)
      (n : ℕ) (b : Broker L) (w : W.State) (r : Result (List ℤ))
      → IsAttached n [] b (after_join L W order member req partitions n b w r)
  unfolding after_join
  after_join-IsAttached W order member req partitions n b w (ok ps) =
      end_early-IsAttached order member req partitions n b _
        (attach_all-IsAttached W req ps n [] b w)
  after_join-IsAttached W order member req partitions n b w (err e) =
      unchanged-IsAttached n [] b (returns (some e)) w (λ regs' q. absurd (cc q))
  after_join-IsAttached W order member req partitions n b w panic =
      unchanged-IsAttached n [] b panics w (λ regs' q. absurd (cc q))

  IsAttached-subs :
      {S : Type 0} (n : ℕ) (b b1 : Broker L) (a : Attached L S)
      → b1.subs ≡ b.subs
      → IsAttached n [] b1 a
      → IsAttached n [] b a
  IsAttached-subs n b b1 a same h = record {
    added = h.added;
    next = h.next;
    numbered = h.numbered;
    stands = λ k. h.stands k ∙ ap (λ subs. channels_at k subs ++ channels_of k h.added) same;
    recorded = h.recorded;
  }

  -- The part of a group's subscription before its loop only adds channels, each behind those that
  -- stood under its key before. If it comes to the loop, they are the ones that its clean-up is to
  -- unregister; if the handler returns or panics, all those that it made are left among the
  -- subscribers too. No other call runs in between.
  pub subscribe_group-IsAttached :
      (W : Stream) (order : RangeOrder) (member : Bytes) (req : SubscribeRequest) (n : ℕ)
      (b : Broker L) (w : W.State)
      → IsAttached n [] b (subscribe_group L W order member req n b w)
  unfolding subscribe_group
  subscribe_group-IsAttached W order member req n b w =
      elim (Bool-cases (eq_ℤ (get_partition_count b.pm req.topic) (pos 0))) [
        | inl zero ↦
            rw (zero, subscribe_group)
              (unchanged-IsAttached n [] b (returns (some (no_partitions req.topic))) w
                (λ regs' q. absurd (cc q)))
        | inr some_ ↦
            rw (some_, subscribe_group)
              (IsAttached-subs n b
                (record b {
                  gm =
                      (join order b.gm req.group member req.topic
                        (get_partition_count b.pm req.topic)).1;
                })
                _ refl
                (after_join-IsAttached W order member req (get_partition_count b.pm req.topic) n _ w
                  _))
      ]

  -- A group's subscription that comes to its loop leaves every list of subscribers as it found it
  -- once its clean-up has run, if the numbers of its channels are new and no other call runs in
  -- between.
  pub end_group_restores :
      (W : Stream) (order order' : RangeOrder) (member : Bytes) (req : SubscribeRequest) (n : ℕ)
      (b : Broker L) (w : W.State) (partitions : ℤ) (regs : List Registration) (k : Bytes)
      → ((i : ℕ) → n ≤ i → contains i (channels_at k b.subs) ≡ false)
      → (subscribe_group L W order member req n b w).0 ≡ continues regs
      → channels_at k
          (end_group L order' member req partitions regs
            (subscribe_group L W order member req n b w).2).subs
        ≡ channels_at k b.subs
  unfolding end_group leave_group
  end_group_restores W order order' member req n b w partitions regs k fresh e =
      let a = subscribe_group L W order member req n b w in
      let h = subscribe_group-IsAttached W order member req n b w in
      let same = h.recorded regs e in
      unregister_all_lem L k n (channels_at k b.subs) regs a.2
        (subst (IsNumbered n) (sym same) h.numbered) fresh
        (h.stands k ∙ ap (λ rs. channels_at k b.subs ++ channels_of k rs) (sym same))
