-- ===== src/Clients/Consumer.antt =====
-- The loop of client/consumer/main.go on a broker: where the next member of the group goes on.
use go_pub_sub.Prelude.{
  ℕ, zero, suc, ◌+◌, ◌^◌, ◌<◌, ◌≡◌, refl, sym, ap, ◌∙◌, subst, none, if◌then◌else◌, Bool, true,
  false, some, List, [], ◌∷◌, arith, length,
}
use go_pub_sub.Prelude.Int.{ℤ, pos}
use go_pub_sub.Text.{Bytes, is_empty}
use go_pub_sub.Storage.{Message, LogStorage, Contract}
use go_pub_sub.Broker.{Broker, AckRequest, ack}
use go_pub_sub.Broker.Subscribe.{start_offset}
use go_pub_sub.Broker.Subscribe.Group.{start_offset-ack}
use go_pub_sub.Clients.Session.{IsSession}
use go_pub_sub.Clients.{
  Exit, success, running, after_subscribe, consumer_main, Client, Received, on_received, consume,
  consumer_request, ack_request,
}

-- Messages of a partition with the offsets from `n` on.
abbrev pub IsRun : Bytes → ℤ → ℕ → List Message → Type 0
IsRun t p n [] = Unit {0}
IsRun t p n (m ∷ ms) = (m.topic ≡ t) × (m.partition ≡ p) × (m.offset ≡ pos n) × IsRun t p (suc n) ms

module _ (L : LogStorage) (C : Contract L) (K : Client) (S : IsSession K L) (t g : Bytes)
    (p : ℤ) where
  -- Where the group's next member starts to read the partition.
  abbrev At : ℕ → Broker L → Type 0
  At n b = start_offset L b (consumer_request t g) p ≡ pos n

  -- The loop has returned, and the next member starts at `n`.
  abbrev Resumes : ℕ → Bool × K.State → Type 0
  Resumes n (over, s) = (over ≡ true) × At n (S.broker s)

  -- the loop from what was received
  abbrev from_received : ℕ → Received × K.State → Bool × K.State
  from_received rounds x = elim (on_received K g x).0 [
    | true ↦ (true, (on_received K g x).1)
    | false ↦ consume K rounds g (on_received K g x).1
  ]

  ack-Open :
      (b : Broker L) (req : AckRequest)
      → is_empty req.topic ≡ false
      → is_empty req.group ≡ false
      → C.Open b.store
      → C.IsGroup req.group
      → C.IsOffset req.offset
      → C.Open (ack L b (some req)).1.store
  unfolding ack
  ack-Open b req topic group open_ named small =
      simp (topic, group)
        ((C.commit_lem b.store req.group req.topic req.partition req.offset open_ named small).0)

  ack-At :
      (b : Broker L) (m : Message) (n : ℕ)
      → is_empty t ≡ false
      → is_empty g ≡ false
      → C.IsGroup g
      → C.IsOffset m.offset
      → C.Open b.store
      → m.topic ≡ t
      → m.partition ≡ p
      → m.offset ≡ pos n
      → n + 1 < 2 ^ 63
      → At (suc n) (ack L b (some (ack_request g m))).1
  ack-At b m n topic group named small open_ same_t same_p at_ fits =
      subst
        (λ q.
          start_offset L (ack L b (some (ack_request g m))).1 (consumer_request t g) q
          ≡ pos (suc n))
        same_p
        (start_offset-ack L C b (ack_request g m) (consumer_request t g) n 0
            (ap is_empty same_t ∙ topic) group open_ named small at_ fits (sym same_t) refl refl
          ∙ ap pos (omega arith))

  consume-run :
      (rounds n : ℕ) (ms : List Message) (s : K.State)
      → is_empty t ≡ false
      → is_empty g ≡ false
      → C.IsGroup g
      → ((i : ℕ) → i < 2 ^ 63 → C.IsOffset (pos i))
      → C.Open (S.broker s).store
      → S.coming s ≡ ms
      → IsRun t p n ms
      → At n (S.broker s)
      → n + length ms < 2 ^ 63
      → length ms < rounds
      → Resumes (n + length ms) (consume K rounds g s)
  unfolding consume on_received
  consume-run zero n ms s topic group named small open_ c run at_ fits enough = absurd (omega arith)
  consume-run (suc rounds) n [] s topic group named small open_ c run at_ fits enough =
      let (s', e, same) = S.end_lem s c in
      subst (λ x. Resumes (n + 0) (from_received rounds x)) (sym e)
        (refl, subst (λ b. At (n + 0) b) (sym same) (at_ ∙ ap pos (omega arith)))
  consume-run (suc rounds) n (m ∷ ms) s topic group named small open_ c run at_ fits enough =
      let (s', e, rest, same) = S.recv_lem s m ms c in
      let (rest', acked) = S.ack_lem s' (ack_request g m) in
      let reached : S.broker (K.ack s' (ack_request g m)).1
          ≡ (ack L (S.broker s) (some (ack_request g m))).1 =
        acked ∙ ap (λ b. (ack L b (some (ack_request g m))).1) same in
      subst (λ x. Resumes (n + suc (length ms)) (from_received rounds x)) (sym e)
        (subst (λ i. Resumes i (consume K rounds g (K.ack s' (ack_request g m)).1)) (omega arith)
          (consume-run rounds (suc n) ms (K.ack s' (ack_request g m)).1 topic group named small
            (subst (λ b. C.Open b.store) (sym reached)
              (ack-Open (S.broker s) (ack_request g m) (ap is_empty run.0 ∙ topic) group open_ named
                (subst C.IsOffset (sym run.2) (small n (omega arith)))))
            (rest' ∙ rest) run.3
            (subst (λ b. At (suc n) b) (sym reached)
              (ack-At (S.broker s) m n topic group named
                (subst C.IsOffset (sym run.2) (small n (omega arith))) open_ run.0 run.1 run.2
                (omega arith)))
            (omega arith) (omega arith)))

  -- On a connection to a broker with an open store that keeps the contract, keeps the group apart
  -- and can store offsets below 2 ^ 63: if the group has got to the offset `n` of a partition, and
  -- the consumer's subscription is sent the partition's messages from there on and then ends, while
  -- nobody else calls the broker, the consumer acknowledges each of them and exits with success, in
  -- one round more than there are messages, and the group's next member starts with the message
  -- after the last.
  pub consumer_resumes :
      (rounds n : ℕ) (ms : List Message) (s s' : K.State)
      → K.subscribe s (consumer_request t g) ≡ (none, s')
      → is_empty t ≡ false
      → is_empty g ≡ false
      → C.IsGroup g
      → ((i : ℕ) → i < 2 ^ 63 → C.IsOffset (pos i))
      → C.Open (S.broker s').store
      → S.coming s' ≡ ms
      → IsRun t p n ms
      → start_offset L (S.broker s') (consumer_request t g) p ≡ pos n
      → n + length ms < 2 ^ 63
      → length ms < rounds
      → ((consumer_main K rounds t g s).0 ≡ success)
        × (start_offset L (S.broker (consumer_main K rounds t g s).1) (consumer_request t g) p
            ≡ pos (n + length ms))
  unfolding consumer_main after_subscribe
  consumer_resumes rounds n ms s s' e topic group named small open_ c run at_ fits enough =
      let r = consume-run rounds n ms s' topic group named small open_ c run at_ fits enough in
      subst (λ x. Done (n + length ms) (after_subscribe K rounds g x)) (sym e)
        (ap (λ over. if over then success else running) r.0, r.1)
    where
      Done : ℕ → Exit × K.State → Type 0
      Done k x = (x.0 ≡ success) × (start_offset L (S.broker x.1) (consumer_request t g) p ≡ pos k)
