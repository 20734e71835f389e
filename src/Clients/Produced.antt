-- ===== src/Clients/Produced.antt =====
-- From client/producer/main.go to client/consumer/main.go: what the one publishes, the other is
-- sent.
use go_pub_sub.Prelude.{
  refl, sym, ℕ, ◌+◌, ◌^◌, ◌<◌, ◌≡◌, ap, ◌∙◌, true, false, [], ◌∷◌, ◌++◌, arith, inl, inr, ◌⊎◌,
  subst, if◌then◌else◌,
}
use go_pub_sub.Prelude.Int.{ℤ, pos, negsuc}
use go_pub_sub.Text.{Bytes, is_empty}
use go_pub_sub.Go.{Error, Result, ok}
use go_pub_sub.Storage.{Message, LogStorage, Contract}
use go_pub_sub.Storage.RoundTrip.{same_log_refl}
use go_pub_sub.Partitions.Choice.{counter}
use go_pub_sub.Partitions.Locks.{IsValid}
use go_pub_sub.Topics.{topic_exists}
use go_pub_sub.Broker.{Broker, PublishRequest, PublishResponse, new_message}
use go_pub_sub.Broker.Publish.{IsPublished, publish-Published}
use go_pub_sub.Broker.Subscribe.{start_offset, after_committed}
use go_pub_sub.Clients.{
  Client, success, after_publish, producer_main, producer_request, consumer_request,
}
use go_pub_sub.Clients.Session.{IsSession, reply}

module _ (L : LogStorage) (C : Contract L) (K : Client) (S : IsSession K L) (t g v : Bytes) where
  start_offset-new :
      (b : Broker L) (p : ℤ)
      → C.Open b.store
      → C.IsGroup g
      → C.committed b.store g t p ≡ negsuc 0
      → start_offset L b (consumer_request t g) p ≡ pos 0
  unfolding start_offset
  start_offset-new b p open_ named none_yet =
      ap (λ c. after_committed c.0) (C.get_committed_lem b.store g t p open_ named)
      ∙ ap after_committed none_yet

  abbrev request : PublishRequest
  request = producer_request t v (negsuc 0)

  -- what holds of the broker after the publish, and of the response
  abbrev Stored : Broker L → Result PublishResponse → Broker L → Type 0
  Stored b r b' =
      (response : PublishResponse) × (r ≡ ok response)
      × (m : Message) × (m.value ≡ v)
      × (L.read b'.store t response.partition
            (start_offset L b' (consumer_request t g) response.partition) (pos 0)
          ≡ ok (C.log b.store t response.partition ++ m ∷ []))

  published-Stored :
      (now n : ℕ) (b b' : Broker L) (r : Result PublishResponse)
      → IsPublished L C now n b b' request r
      → C.IsGroup g
      → ((p : ℤ) → C.committed b.store g t p ≡ negsuc 0)
      → Stored b r b'
  published-Stored now n b b' r i group none_yet =
      let p = i.partition in
      (
        _,
        i.result,
        i.message,
        i.stored.value,
        ap (λ o. L.read b'.store t p o (pos 0))
              (start_offset-new b' p i.open_ group (i.commits g t p ∙ none_yet p))
            ∙ C.read_lem b'.store t p 0 i.open_
            ∙ ap ok (
                i.logs t p
                ∙ ap (λ e. if e then C.log b.store t p ++ i.message ∷ [] else C.log b.store t p)
                    (same_log_refl t p)),
      )

  after_publish_lem :
      (x : (Error ⊎ PublishResponse) × K.State) (response : PublishResponse)
      → x.0 ≡ inr response
      → after_publish K x ≡ (success, x.1)
  after_publish_lem (inr _, s) response e = refl
  after_publish_lem (inl _, s) response e = absurd (cc e)

  -- The producer, with no partition asked for, publishes a text to a topic that the broker at the
  -- other end of its connection has; the partition manager is valid, the counter short of 63 bits,
  -- and the store open, keeps the contract and can store the message. Then the program ends with
  -- success, and for some partition and a group that the store keeps apart and that has committed
  -- nothing on the topic, a consumer's read of that partition, from where it starts, gives the
  -- older messages and after them one with that text.
  pub produced_consumed :
      (c : ℕ) (s : K.State)
      → is_empty t ≡ false
      → topic_exists (S.broker s).tm t ≡ true
      → IsValid (S.broker s).pm
      → counter (S.broker s).pm t ≡ pos c
      → c + 1 < 2 ^ 63
      → C.Open (S.broker s).store
      → ((p : ℤ)
          → C.IsMessage (record (new_message (producer_request t v (negsuc 0))) { partition = p }))
      → C.IsGroup g
      → ((p : ℤ) → C.committed (S.broker s).store g t p ≡ negsuc 0)
      → let (exit, s') = producer_main K t v (negsuc 0) s in
        (exit ≡ success)
        × (p : ℤ) × (m : Message) × (m.value ≡ v)
        × (L.read
              (S.broker s').store
              t
              p
              (start_offset L (S.broker s') (consumer_request t g) p)
              (pos 0)
            ≡ ok (C.log (S.broker s).store t p ++ m ∷ []))
  unfolding producer_main
  produced_consumed c s named known valid ec fits open_ fit group none_yet =
      let (now, answered, reached) = S.publish_lem s request in
      let (n, (_, _, ended)) =
        publish-Published L C now c (S.broker s) request named known valid ec fits open_ fit in
      elim ended [
        | inl (over, _, _, _) ↦ absurd (omega arith)
        | inr i ↦
            let (response, r, m, text, there) =
              published-Stored now n (S.broker s) _ _ i group none_yet in
            let done = after_publish_lem (K.publish s request) response (answered ∙ ap reply r) in
            (
              ap (λ x. x.0) done,
              response.partition,
              m,
              text,
              subst
                  (λ b'.
                    L.read b'.store t response.partition
                      (start_offset L b' (consumer_request t g) response.partition) (pos 0)
                    ≡ ok (C.log (S.broker s).store t response.partition ++ m ∷ []))
                  (sym (ap (λ x. S.broker x.1) done ∙ reached)) there,
            )
      ]
