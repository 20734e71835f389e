-- ===== src/Broker/Publish.antt =====
-- `Publish` of internal/broker/broker.go: what it stores, returns and hands to subscribers.
use go_pub_sub.Prelude.{
  ℕ, ◌+◌, ◌^◌, ◌<◌, ◌≡◌, refl, sym, ap, ◌∙◌, subst, ◌⊎◌, inl, inr, true, false, Option, none, some,
  List, [], ◌∷◌, ◌++◌, map, arith, length, if◌then◌else◌, Option-cases,
}
use go_pub_sub.Prelude.Int.{ℤ, pos, ◌≤ℤ◌}
use go_pub_sub.Text.{Bytes, is_empty, bytes_eq_iff}
use go_pub_sub.GoMap.{GoMap, get, get-put}
use go_pub_sub.Go.{Result, ok, err, invalid_hint}
use go_pub_sub.Storage.{Message, LogStorage, Contract, IsStored, same_log}
use go_pub_sub.Storage.Memory.Keys.{tkey_eq}
use go_pub_sub.Partitions.{Appended, tp_key}
use go_pub_sub.Partitions.Choice.{counter, IsPartition}
use go_pub_sub.Partitions.Locks.{IsValid}
use go_pub_sub.Partitions.Append.{Outcome, append-Outcome}
use go_pub_sub.Topics.{topic_exists}
use go_pub_sub.Broker.{
  Broker, Channel, PublishRequest, PublishResponse, offer, fan_out, new_message, proto_message,
  deliver, publish,
}

-- what the channels of a key become when a message is offered to each of them
abbrev pub offered : Message → Option (List Channel) → Option (List Channel)
offered m none = none
offered m (some channels) = some (map (offer m) channels)

-- A fan-out offers the message to the subscribers of its topic and partition, and to no others.
pub get-fan_out :
    (m : Message) (t u : Bytes) (p q : ℤ) (subs : GoMap (List Channel))
    → get (tp_key u q) (fan_out m (tp_key t p) subs)
      ≡ (if same_log t p u q then offered m (get (tp_key u q) subs) else get (tp_key u q) subs)
unfolding fan_out
get-fan_out m t u p q subs = elim (Option-cases (get (tp_key t p) subs)) [
  | inl e ↦ rw (e, fan_out, ← tkey_eq) (ground (arith, bytes_eq_iff (tp_key t p) (tp_key u q)))
  | inr (chs, e) ↦
      rw (e, fan_out, get-put, ← tkey_eq) (ground (arith, bytes_eq_iff (tp_key t p) (tp_key u q)))
]

-- the message that a request asks to store in a partition, with no time yet
abbrev pub requested : PublishRequest → ℤ → Message
requested req partition = record {
  topic = req.topic;
  partition = partition;
  offset = pos 0;
  key = req.key;
  value = req.value;
  headers = req.headers;
  ts = 0;
}

module _ (L : LogStorage) (C : Contract L) where
  open C use {Open, log}

  -- A publish to one of the `n` partitions of a topic, that led from `b` to `b'`.
  pub record IsPublished (now n : ℕ) (b b' : Broker L) (req : PublishRequest)
      (r : Result PublishResponse) : Type 0 where
    pub partition : ℤ
    pub message : Message
    pub below : IsPartition n partition
    pub hinted : pos 0 ≤ℤ req.partition → partition ≡ req.partition
    pub stored :
        IsStored now (length (log b.store req.topic partition)) (requested req partition) message
    pub result :
        r
        ≡ ok (record {
          topic = req.topic;
          partition = partition;
          offset = pos (length (log b.store req.topic partition));
          timestamp = message.ts;
        })
    pub open_ : Open b'.store
    pub commits : (g u : Bytes) (q : ℤ) → C.committed b'.store g u q ≡ C.committed b.store g u q
    pub logs :
        (u : Bytes) (q : ℤ)
        → log b'.store u q ≡ (
            if same_log req.topic partition u q
            then log b.store u q ++ message ∷ []
            else log b.store u q)
    pub subs :
        (u : Bytes) (q : ℤ)
        → get (tp_key u q) b'.subs ≡ (
            if same_log req.topic partition u q
            then offered
                (proto_message message partition (pos (length (log b.store req.topic partition))))
                (get (tp_key u q) b.subs)
            else get (tp_key u q) b.subs)

  -- What `publish` may end in for a topic with `n` partitions.
  abbrev pub Published :
      ℕ → ℕ → Broker L → PublishRequest → Result PublishResponse × Broker L → Type 0
  Published now n b req a =
      let (r, b') = a in
      (get req.topic b'.pm.partitions ≡ some (pos n))
      × IsValid b'.pm
      × (((pos n ≤ℤ req.partition)
            × (r ≡ err (invalid_hint req.partition req.topic (pos n)))
            × (b'.store ≡ b.store)
            × (b'.subs ≡ b.subs))
          ⊎ IsPublished now n b b' req r)

  deliver-Published :
      (now n : ℕ) (b : Broker L) (req : PublishRequest) (a : Appended L)
      → Outcome L C now b.pm b.store req.topic req.partition (new_message req) n a
      → Published now n b req (deliver L b req.topic a)
  unfolding deliver
  deliver-Published now n b req (r, m', pm', st')
        (registered, valid, keeps, inl (over, e, _, same)) =
      subst (λ q. Published now n b req (deliver L b req.topic (q, m', pm', st'))) (sym e)
        (registered, valid, inl (over, refl, same, refl))
  deliver-Published now n b req (r, m', pm', st')
        (registered, valid, keeps, inr (p, inside, hinted, placed)) =
      subst (λ q. Published now n b req (deliver L b req.topic (q, m', pm', st')))
        (sym placed.result)
        (
          registered,
          valid,
          inr (record {
            partition = p;
            message = placed.kept;
            below = inside;
            hinted = hinted;
            stored = placed.stored;
            result =
                ap
                  (λ (k : Message). ok (record {
                    topic = req.topic;
                    partition = p;
                    offset = pos (length (log b.store req.topic p));
                    timestamp = k.ts;
                  }))
                  placed.returned;
            open_ = placed.open_;
            commits = placed.commits;
            logs = placed.logs;
            subs = λ u q.
                get-fan_out _ req.topic u p q b.subs
                ∙ ap
                    (λ (k : Message).
                      if same_log req.topic p u q
                      then offered (proto_message k p (pos (length (log b.store req.topic p))))
                          (get (tp_key u q) b.subs)
                      else get (tp_key u q) b.subs)
                    placed.returned;
          }),
        )

  -- With a valid partition manager, a counter short of its 63 bits, an open store that keeps the
  -- contract and a message that it can store, a publish to a topic that the broker has ends in one
  -- of two ways. Either the requested partition is not below the topic's count, and the error
  -- leaves the store and the subscribers as they were; or a message with the request's topic, key,
  -- value and headers is at the end of the log of one of the topic's partitions, the requested one
  -- if that is not negative, the response has that partition and the message's offset, no committed
  -- offset changes, and the subscribers of that partition, but no others, are offered the message.
  pub publish-Published :
      (now c : ℕ) (b : Broker L) (req : PublishRequest)
      → is_empty req.topic ≡ false
      → topic_exists b.tm req.topic ≡ true
      → IsValid b.pm
      → counter b.pm req.topic ≡ pos c
      → c + 1 < 2 ^ 63
      → Open b.store
      → ((p : ℤ) → C.IsMessage (record (new_message req) { partition = p }))
      → (n : ℕ) × Published now n b req (publish L now b (some req))
  unfolding publish
  publish-Published now c b req named known valid ec fits open_ fit =
      let (n, outcome) =
        append-Outcome L C now c b.pm b.store req.topic req.partition req.key (new_message req)
          valid ec fits open_ fit in
      (n, simp (named, known) (deliver-Published now n b req _ outcome))
