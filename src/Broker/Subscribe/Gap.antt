-- ===== src/Broker/Subscribe/Gap.antt =====
-- Between the backlog and the registration of a subscription, in internal/broker/broker.go.
use mathlib.Core.List.{foldl}
use go_pub_sub.Prelude.{
  ℕ, ◌+◌, ◌^◌, ◌<◌, ◌≡◌, refl, sym, ap, subst, ◌∙◌, true, false, none, some, [], ◌∷◌, ◌++◌, drop,
  inl, inr,
}
use go_pub_sub.Prelude.Int.{ℤ, pos, int32_of}
use go_pub_sub.Text.{is_empty}
use go_pub_sub.GoMap.{get, get-put_self}
use go_pub_sub.Go.{Error, Result, ok, err}
use go_pub_sub.Storage.{Message, LogStorage, Contract}
use go_pub_sub.Storage.RoundTrip.{same_log_refl}
use go_pub_sub.Partitions.{tp_key}
use go_pub_sub.Partitions.Choice.{counter}
use go_pub_sub.Partitions.Locks.{IsValid}
use go_pub_sub.Topics.{topic_exists, validate_partition}
use go_pub_sub.Broker.{Broker, PublishRequest, PublishResponse, new_message, publish}
use go_pub_sub.Broker.Publish.{publish-Published}
use go_pub_sub.Broker.Channels.{or_nil, add_channel, register}
use go_pub_sub.Broker.Subscribe.{
  Stream, SubscribeRequest, continues, chosen_partition, send_history, go_live,
}
use go_pub_sub.Broker.Subscribe.History.{Accepts, send_history_lem}

ok_injective : {x y : PublishResponse} → ok x ≡ ok y → x ≡ y
ok_injective e = cc

module _ (L : LogStorage) (C : Contract L) where
  open C use {Open, log}

  -- A publish that succeeds puts one message behind those of the partition in its response.
  published_log :
      (now c : ℕ) (b : Broker L) (req : PublishRequest) (resp : PublishResponse)
      → is_empty req.topic ≡ false
      → topic_exists b.tm req.topic ≡ true
      → IsValid b.pm
      → counter b.pm req.topic ≡ pos c
      → c + 1 < 2 ^ 63
      → Open b.store
      → ((p : ℤ) → C.IsMessage (record (new_message req) { partition = p }))
      → (publish L now b (some req)).0 ≡ ok resp
      → (m : Message) × (log (publish L now b (some req)).1.store req.topic resp.partition
          ≡ log b.store req.topic resp.partition ++ m ∷ [])
  published_log now c b req resp named known valid ec fits open_ fit done =
      elim (publish-Published L C now c b req named known valid ec fits open_ fit).1.2 [
        | inl (over, refused, kept, same) ↦ absurd (clash done refused)
        | inr p ↦ (
          p.message,
          subst
              (λ q.
                log (publish L now b (some req)).1.store req.topic q
                ≡ log b.store req.topic q ++ p.message ∷ [])
              (ap (λ (x : PublishResponse). x.partition) (ok_injective (sym p.result ∙ done)))
              (p.logs req.topic p.partition ∙ simp (same_log_refl req.topic p.partition) refl),
        )
      ]
    where
      clash :
          {r : Result PublishResponse} {x : PublishResponse} {e : Error} → r ≡ ok x → r ≡ err e → ⊥
      clash x y = cc

  module _ (W : Stream) (accept : W.State → Message → W.State) (accepts : Accepts W accept) where
    -- A publish that succeeds after a subscription has read its backlog and before it registers its
    -- channel loses its message for that subscriber: the message is in the log of the partition,
    -- the backlog ends before it, and the channel, which is put behind the others, starts empty.
    -- The publish is to the subscription's topic and partition, with a valid partition manager, a
    -- counter short of its 63 bits, an open store that keeps the contract and a message that it can
    -- store; the offset is not negative, the partition is valid, and the client takes every
    -- message.
    pub publish_in_subscribe :
        (now c : ℕ) (b : Broker L) (preq : PublishRequest) (resp : PublishResponse)
        (req : SubscribeRequest) (n id : ℕ) (w : W.State)
        → is_empty preq.topic ≡ false
        → topic_exists b.tm preq.topic ≡ true
        → IsValid b.pm
        → counter b.pm preq.topic ≡ pos c
        → c + 1 < 2 ^ 63
        → Open b.store
        → ((p : ℤ) → C.IsMessage (record (new_message preq) { partition = p }))
        → (publish L now b (some preq)).0 ≡ ok resp
        → validate_partition b.tm preq.topic resp.partition ≡ none
        → req.topic ≡ preq.topic
        → chosen_partition req.partition ≡ resp.partition
        → req.offset ≡ pos n
        → let b1 = (publish L now b (some preq)).1 in
          let key = tp_key req.topic (int32_of (chosen_partition req.partition)) in
          ((m : Message) × (log b1.store preq.topic resp.partition
              ≡ log b.store preq.topic resp.partition ++ m ∷ []))
          × (send_history L W b req w
              ≡ (continues tt, foldl accept w (drop n (log b.store preq.topic resp.partition))))
          × (get key (go_live L id b1 req).1.subs
              ≡ some (or_nil (get key b1.subs) ++ record { id = id; buffer = [] } ∷ []))
    unfolding go_live register add_channel
    publish_in_subscribe now c b preq resp req n id w named known valid ec fits open_ fit done
          ok_part same_t same_p from =
        (
          published_log now c b preq resp named known valid ec fits open_ fit done,
          send_history_lem W accept accepts L C b req n w open_
                (ap (validate_partition b.tm req.topic) same_p
                  ∙ ap (λ t. validate_partition b.tm t resp.partition) same_t
                  ∙ ok_part)
                from
              ∙ ap (λ q. (continues tt, foldl accept w (drop n (log b.store req.topic q)))) same_p
              ∙ ap (λ t. (continues tt, foldl accept w (drop n (log b.store t resp.partition))))
                  same_t,
          get-put_self _ _ (publish L now b (some preq)).1.subs,
        )
