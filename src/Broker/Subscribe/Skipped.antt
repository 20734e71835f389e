-- ===== src/Broker/Subscribe/Skipped.antt =====
-- What becomes of a message that is published between the backlog of a group's member and the
-- registration of its channel, in internal/broker/broker.go.
use go_pub_sub.Prelude.{
  ℕ, ◌+◌, ◌^◌, ◌<◌, ◌≡◌, refl, sym, ap, subst, ◌∙◌, true, false, Option, none, some, List, [], ◌∷◌,
  ◌++◌, drop, map, inl, inr, length, length-append, arith, if◌then◌else◌,
}
use mathlib.Core.List.{map-append}
use go_pub_sub.Prelude.Int.{ℤ, pos, negsuc}
use go_pub_sub.Text.{Bytes, is_empty}
use go_pub_sub.GoMap.{get, get-put_self}
use go_pub_sub.Go.{Error, Result, ok, err, panic}
use go_pub_sub.Storage.{Message, LogStorage, Contract}
use go_pub_sub.Storage.RoundTrip.{same_log_refl}
use go_pub_sub.Partitions.{PartitionManager, tp_key}
use go_pub_sub.Partitions.Choice.{counter}
use go_pub_sub.Partitions.Locks.{IsValid}
use go_pub_sub.Topics.{topic_exists}
use go_pub_sub.Broker.{
  Broker, PublishRequest, PublishResponse, AckRequest, new_message, proto_message, offer, publish,
  ack, deliver, Channel,
}
use go_pub_sub.Broker.Publish.{IsPublished, offered, publish-Published}
use go_pub_sub.Broker.Channels.{or_nil, new_channel, add_channel, register}
use go_pub_sub.Broker.Subscribe.{SubscribeRequest, start_offset}
use go_pub_sub.Broker.Subscribe.Group.{start_offset-ack}

module _ (L : LogStorage) (C : Contract L) where
  open C use {Open, log}

  -- A publish that succeeds is one of the two outcomes.
  succeeded :
      (now c : ℕ) (b : Broker L) (req : PublishRequest) (resp : PublishResponse)
      → is_empty req.topic ≡ false
      → topic_exists b.tm req.topic ≡ true
      → IsValid b.pm
      → counter b.pm req.topic ≡ pos c
      → c + 1 < 2 ^ 63
      → Open b.store
      → ((p : ℤ) → C.IsMessage (record (new_message req) { partition = p }))
      → (publish L now b (some req)).0 ≡ ok resp
      → IsValid (publish L now b (some req)).1.pm
        × (n : ℕ) × IsPublished L C now n b (publish L now b (some req)).1 req (ok resp)
  succeeded now c b req resp named known valid ec fits open_ fit done =
      let (n, (_, valid', ended)) =
        publish-Published L C now c b req named known valid ec fits open_ fit in
      elim ended [
        | inl (_, refused, _, _) ↦ absurd (clash done refused)
        | inr i ↦
            (valid', n, subst (IsPublished L C now n b (publish L now b (some req)).1 req) done i)
      ]
    where
      clash :
          {r : Result PublishResponse} {x : PublishResponse} {e : Error} → r ≡ ok x → r ≡ err e → ⊥
      clash x y = cc

  -- what a publish that put one message into a partition, at an offset, has done there
  record Added (b b' : Broker L) (t : Bytes) (p o : ℤ) : Type 0 where
    message : Message
    offset : o ≡ pos (length (log b.store t p))
    open_ : Open b'.store
    log_ : log b'.store t p ≡ log b.store t p ++ message ∷ []
    subs : get (tp_key t p) b'.subs ≡ offered (proto_message message p o) (get (tp_key t p) b.subs)

  IsPublished-Added :
      (now n : ℕ) (b b' : Broker L) (req : PublishRequest) (resp : PublishResponse)
      → IsPublished L C now n b b' req (ok resp)
      → Added b b' req.topic resp.partition resp.offset
  IsPublished-Added now n b b' req resp i =
      subst (λ (x : PublishResponse). Added b b' req.topic x.partition x.offset)
        (sym (ok_injective i.result))
        (record {
          message = i.message;
          offset = refl;
          open_ = i.open_;
          log_ =
              i.logs req.topic i.partition
              ∙ ap
                  (λ e.
                    if e
                    then log b.store req.topic i.partition ++ i.message ∷ []
                    else log b.store req.topic i.partition)
                  (same_log_refl req.topic i.partition);
          subs =
              i.subs req.topic i.partition
              ∙ ap
                  (λ e.
                    if e
                    then offered
                        (proto_message i.message i.partition
                          (pos (length (log b.store req.topic i.partition))))
                        (get (tp_key req.topic i.partition) b.subs)
                    else get (tp_key req.topic i.partition) b.subs)
                  (same_log_refl req.topic i.partition);
        })
    where
      ok_injective : {x y : PublishResponse} → ok x ≡ ok y → x ≡ y
      ok_injective e = cc

  deliver-tm :
      (b : Broker L) (t : Bytes) (a : Result (ℤ × ℤ) × Message × PartitionManager × L.State)
      → (deliver L b t a).1.tm ≡ b.tm
  unfolding deliver
  deliver-tm b t (ok (off, part), m, pm, st) = refl
  deliver-tm b t (err e, m, pm, st) = refl
  deliver-tm b t (panic, m, pm, st) = refl

  publish-tm :
      (now : ℕ) (b : Broker L) (req : PublishRequest)
      → is_empty req.topic ≡ false
      → topic_exists b.tm req.topic ≡ true
      → (publish L now b (some req)).1.tm ≡ b.tm
  unfolding publish
  publish-tm now b req named known = simp (named, known) (deliver-tm b req.topic _)

  -- the channels of a key after a message is offered to them, the last of which is new
  offered-new :
      (m : Message) (id : ℕ) (olds : List Channel)
      → offered m (some (olds ++ new_channel id ∷ []))
        ≡ some (map (offer m) olds ++ record { id = id; buffer = m ∷ [] } ∷ [])
  offered-new m id olds = ap some (map-append (offer m) olds (new_channel id ∷ []))

  or_nil-offered :
      (m : Message) (o : Option (List Channel)) → or_nil (offered m o) ≡ map (offer m) (or_nil o)
  or_nil-offered m none = refl
  or_nil-offered m (some chs) = refl

  module _ (now now' id : ℕ) (b : Broker L) (first second : PublishRequest)
      (resp : PublishResponse) where
    -- the broker after the first publish, the registration, and the second publish
    abbrev pub gapped : Broker L
    gapped = register L id (tp_key first.topic resp.partition) (publish L now b (some first)).1

    abbrev pub ended : Broker L
    ended = (publish L now' gapped (some second)).1

    abbrev pub last_ack : Bytes → PublishResponse → AckRequest
    last_ack g resp' = record {
      topic = first.topic;
      partition = resp.partition;
      offset = resp'.offset;
      group = g;
    }

    -- What the member of the request `req`, that read the partition from offset `n`, and its group
    -- then have. The first message is `m`, the second `m'`.
    abbrev pub PassedOver : ℕ → Bytes → PublishResponse → SubscribeRequest → Type 0
    PassedOver n g resp' req =
        let t = first.topic in
        let p = resp.partition in
        let before = log b.store t p in
        (m : Message) × (m' : Message) × (L.read b.store t p (start_offset L b req p) (pos 0)
          ≡ ok (drop n before))
        × (log ended.store t p ≡ (before ++ m ∷ []) ++ m' ∷ [])
        × (get (tp_key t p) ended.subs
            ≡ some (
                map (offer (proto_message m' p (pos (length before + 1)))) (
                  map (offer (proto_message m p (pos (length before))))
                    (or_nil (get (tp_key t p) b.subs)))
                ++ record { id = id; buffer = proto_message m' p (pos (length before + 1)) ∷ [] }
                  ∷ []))
        × (start_offset L (ack L ended (some (last_ack g resp'))).1 req p ≡ pos (length before + 2))

    Added-PassedOver :
        (n k : ℕ) (g : Bytes) (resp' : PublishResponse) (req : SubscribeRequest) (o : ℤ)
        → Added b (publish L now b (some first)).1 first.topic resp.partition o
        → Added gapped ended first.topic resp.partition resp'.offset
        → is_empty first.topic ≡ false
        → Open b.store
        → is_empty g ≡ false
        → C.IsGroup g
        → C.IsOffset resp'.offset
        → length (log b.store first.topic resp.partition) + 2 < 2 ^ 63
        → req.topic ≡ first.topic
        → req.group ≡ g
        → req.offset ≡ negsuc k
        → start_offset L b req resp.partition ≡ pos n
        → PassedOver n g resp' req
    unfolding register add_channel
    Added-PassedOver n k g resp' req o a a' named open_ grouped apart small room same_q same_g
          latest from =
        let t = first.topic in
        let p = resp.partition in
        let len = length (log b.store t p) in
        let subs = (publish L now b (some first)).1.subs in
        let olds = or_nil (get (tp_key t p) subs) in
        let m' = proto_message a'.message p (pos (len + 1)) in
        let longer : length (log gapped.store t p) ≡ len + 1 =
          ap length a.log_ ∙ length-append (log b.store t p) (a.message ∷ []) ∙ omega arith in
        let at_ : resp'.offset ≡ pos (len + 1) = a'.offset ∙ ap pos longer in
        (
          a.message,
          a'.message,
          ap (λ q. L.read b.store t p q (pos 0)) from ∙ C.read_lem b.store t p n open_,
          a'.log_ ∙ ap (λ ms. ms ++ a'.message ∷ []) a.log_,
          a'.subs
              ∙ ap (λ q. offered (proto_message a'.message p q) (get (tp_key t p) gapped.subs)) at_
              ∙ ap (offered m') (get-put_self (tp_key t p) (olds ++ new_channel id ∷ []) subs)
              ∙ offered-new m' id olds
              ∙ ap (λ chs. some (map (offer m') chs ++ record { id = id; buffer = m' ∷ [] } ∷ []))
                  (ap or_nil (
                      a.subs
                      ∙ ap (λ q. offered (proto_message a.message p q) (get (tp_key t p) b.subs))
                          a.offset)
                    ∙ or_nil-offered (proto_message a.message p (pos len))
                        (get (tp_key t p) b.subs)),
          start_offset-ack L C ended (last_ack g resp') req (len + 1) k named grouped a'.open_ apart
                small at_ (omega arith) same_q same_g latest
              ∙ ap pos (omega arith),
        )

    -- A member of a group has read its backlog of a partition, from where the group is, up to the
    -- end; then a first message is published there, the member's channel is registered, and a
    -- second message is published to the partition. Both publishes succeed, with valid tables,
    -- counters short of 63 bits and an open store that keeps the contract and can store what it is
    -- given. Then both messages are in the log; the backlog that was read ends in front of the
    -- first; the member's channel has the second alone, and only the channels that were registered
    -- before have been offered the first; and once the second has been acknowledged for the group,
    -- a member that joins with the same request starts to read behind both.
    pub message_skipped :
        (c c' n k : ℕ) (g : Bytes) (resp' : PublishResponse) (req : SubscribeRequest)
        → is_empty first.topic ≡ false
        → topic_exists b.tm first.topic ≡ true
        → IsValid b.pm
        → counter b.pm first.topic ≡ pos c
        → c + 1 < 2 ^ 63
        → Open b.store
        → ((p : ℤ) → C.IsMessage (record (new_message first) { partition = p }))
        → (publish L now b (some first)).0 ≡ ok resp
        → second.topic ≡ first.topic
        → counter gapped.pm second.topic ≡ pos c'
        → c' + 1 < 2 ^ 63
        → ((p : ℤ) → C.IsMessage (record (new_message second) { partition = p }))
        → (publish L now' gapped (some second)).0 ≡ ok resp'
        → resp'.partition ≡ resp.partition
        → is_empty g ≡ false
        → C.IsGroup g
        → C.IsOffset resp'.offset
        → length (log b.store first.topic resp.partition) + 2 < 2 ^ 63
        → req.topic ≡ first.topic
        → req.group ≡ g
        → req.offset ≡ negsuc k
        → start_offset L b req resp.partition ≡ pos n
        → PassedOver n g resp' req
    unfolding register
    message_skipped c c' n k g resp' req named known valid ec fits open_ fit done same_t ec' fits'
          fit' done' same_p grouped apart small room same_q same_g latest from =
        let t = first.topic in
        let b1 = (publish L now b (some first)).1 in
        let (valid', _, i) =
          succeeded now c b first resp named known valid ec fits open_ fit done in
        let a = IsPublished-Added now _ b b1 first resp i in
        let known' : topic_exists gapped.tm t ≡ true =
          ap (λ tm. topic_exists tm t) (publish-tm now b first named known) ∙ known in
        let (_, _, i') =
          succeeded now' c' gapped second resp' (ap is_empty same_t ∙ named)
            (ap (topic_exists gapped.tm) same_t ∙ known') valid' ec' fits' a.open_ fit' done' in
        let a' =
          subst (λ q. Added gapped ended t q resp'.offset) same_p
            (subst (λ u. Added gapped ended u resp'.partition resp'.offset) same_t
              (IsPublished-Added now' _ gapped ended second resp' i')) in
        Added-PassedOver n k g resp' req resp.offset a a' named open_ grouped apart small room
          same_q same_g latest from
