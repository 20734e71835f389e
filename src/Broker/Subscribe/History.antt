-- ===== src/Broker/Subscribe/History.antt =====
-- What a subscription of internal/broker/broker.go sends before it goes live.
use mathlib.Core.List.{foldl}
use go_pub_sub.Prelude.{
  ℕ, ◌≡◌, refl, sym, subst, ap, ◌∙◌, false, none, some, List, [], ◌∷◌, drop, arith,
}
use go_pub_sub.Prelude.Int.{pos, ltb_ℤ}
use go_pub_sub.Storage.{Message, LogStorage, Contract}
use go_pub_sub.Topics.{validate_partition}
use go_pub_sub.Broker.{Broker}
use go_pub_sub.Broker.Subscribe.{
  Stream, SubscribeRequest, continues, returns, chosen_partition, send_all, on_read, send_history,
}

-- The client takes every message, and is `accept w m` after the message `m`.
abbrev pub Accepts : (W : Stream) → (W.State → Message → W.State) → Type 0
Accepts W accept = (w : W.State) (m : Message) → W.send w m ≡ (none, accept w m)

module _ (W : Stream) (accept : W.State → Message → W.State) (accepts : Accepts W accept) where
  pub send_all_lem :
      (msgs : List Message) (w : W.State) → send_all W msgs w ≡ (continues tt, foldl accept w msgs)
  unfolding send_all
  send_all_lem [] w = refl
  send_all_lem (m ∷ msgs) w =
      subst
        (λ r.
          elim r.0 [ some x ↦ (returns (some x), r.1) | none ↦ send_all W msgs r.1 ]
          ≡ (continues tt, foldl accept (accept w m) msgs))
        (sym (accepts w m)) (send_all_lem msgs (accept w m))

  -- On an open store that keeps the contract, a subscription without a group, to a valid partition
  -- and from an offset that is not negative, sends a client that takes every message those of the
  -- partition's log from that offset on, each once and in order.
  pub send_history_lem :
      (L : LogStorage) (C : Contract L) (b : Broker L) (req : SubscribeRequest) (n : ℕ)
      (w : W.State)
      → C.Open b.store
      → validate_partition b.tm req.topic (chosen_partition req.partition) ≡ none
      → req.offset ≡ pos n
      → send_history L W b req w ≡ (
        continues tt,
        foldl accept w (drop n (C.log b.store req.topic (chosen_partition req.partition))),
      )
  unfolding send_history
  send_history_lem L C b req n w open_ valid from =
      let known : ltb_ℤ (pos n) (pos 0) ≡ false = ground arith in
      simp (send_history, valid, from, known)
        (ap (λ r. on_read W (send_all W) r w)
            (C.read_lem b.store req.topic (chosen_partition req.partition) n open_)
          ∙ send_all_lem _ w)
