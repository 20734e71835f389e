-- ===== src/Broker/Subscribe/Group.antt =====
-- Where a member of a group starts to read, in internal/broker/broker.go.
use go_pub_sub.Prelude.{ℕ, ◌+◌, ◌^◌, ◌<◌, ◌≡◌, ap, ◌∙◌, true, false, some, arith}
use go_pub_sub.Prelude.Int.{pos, negsuc, ltb_ℤ, int64_of_pos}
use go_pub_sub.Text.{is_empty}
use go_pub_sub.Storage.{LogStorage, Contract}
use go_pub_sub.Broker.{Broker, AckRequest, ack}
use go_pub_sub.Broker.Invariant.{get_committed-ack}
use go_pub_sub.Broker.Subscribe.{SubscribeRequest, after_committed, start_offset}

pub after_committed_lem : (o : ℕ) → o + 1 < 2 ^ 63 → after_committed (pos o) ≡ pos (o + 1)
after_committed_lem o fits = ground (arith, int64_of_pos (o + 1) fits)

module _ (L : LogStorage) (C : Contract L) where
  -- On an open store that keeps the contract and can store the offset: once a client has
  -- acknowledged a message for its group, the group's next member reads that partition from the
  -- message after it, unless the member asks for an offset itself, or that offset passes 63 bits.
  pub start_offset-ack :
      (b : Broker L) (acked : AckRequest) (req : SubscribeRequest) (o k : ℕ)
      → is_empty acked.topic ≡ false
      → is_empty acked.group ≡ false
      → C.Open b.store
      → C.IsGroup acked.group
      → C.IsOffset acked.offset
      → acked.offset ≡ pos o
      → o + 1 < 2 ^ 63
      → req.topic ≡ acked.topic
      → req.group ≡ acked.group
      → req.offset ≡ negsuc k
      → start_offset L (ack L b (some acked)).1 req acked.partition ≡ pos (o + 1)
  unfolding start_offset
  start_offset-ack b acked req o k topic group open_ named small at_ fits same_t same_g latest =
      let negative : ltb_ℤ (negsuc k) (pos 0) ≡ true = ground arith in
      simp (latest, same_t, same_g, negative)
        (ap (λ c. after_committed c.0)
            ((get_committed-ack L C b acked topic group open_ named small).1)
          ∙ ap after_committed at_
          ∙ after_committed_lem o fits)
