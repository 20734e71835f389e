-- ===== src/Broker/Invariant.antt =====
-- What every handler of internal/broker/broker.go keeps: the topic manager and the partition
-- manager agree, and no subscriber's buffer holds more than 64 messages.
use go_pub_sub.Prelude.{
  ℕ, ◌≤◌, ◌≡◌, refl, sym, ◌∙◌, subst, false, Option, none, some, List, [], ◌∷◌, map, arith, length,
  Bool-cases, Option-cases, inl, inr, length-append,
}
use go_pub_sub.Prelude.Int.{pos, leb_ℤ}
use go_pub_sub.Text.{Bytes, bytes_eq, is_empty}
use go_pub_sub.GoMap.{GoMap, get, put, get-put}
use go_pub_sub.Go.{Error, ok, err, panic}
use go_pub_sub.Storage.{Message, LogStorage, Contract}
use go_pub_sub.Storage.RoundTrip.{get_committed-commit}
use go_pub_sub.Partitions.{PartitionManager, Appended}
use go_pub_sub.Topics.{TopicManager, topic_exists}
use go_pub_sub.Topics.Consistent.{IsConsistent, append-IsConsistent, create_topic-IsConsistent}
use go_pub_sub.Broker.{
  Broker, Channel, PublishRequest, CreateTopicRequest, AckRequest, offer, fan_out, new_message,
  deliver, publish, created, create_topic, ack,
}

-- Every buffer is within its channel's capacity.
abbrev pub IsWithin : List Channel → Type 0
IsWithin [] = Unit {0}
IsWithin (ch ∷ channels) = (length ch.buffer ≤ 64) × IsWithin channels

abbrev pub IsBounded : GoMap (List Channel) → Type 0
IsBounded subs =
    (k : Bytes) (channels : List Channel) → get k subs ≡ some channels → IsWithin channels

offer-IsWithin :
    (m : Message) (channels : List Channel) → IsWithin channels → IsWithin (map (offer m) channels)
offer-IsWithin m [] h = tt
offer-IsWithin m (ch ∷ channels) h =
    (ground (arith, length-append ch.buffer (m ∷ [])), offer-IsWithin m channels h.1)

put-IsBounded :
    (key : Bytes) (v : List Channel) (subs : GoMap (List Channel))
    → IsWithin v
    → IsBounded subs
    → IsBounded (put key v subs)
put-IsBounded key v subs u h k channels e = elim (Bool-cases (bytes_eq key k)) [
  | inl same ↦ subst IsWithin (some_injective (sym (get-put key k v subs ∙ simp same refl) ∙ e)) u
  | inr other ↦ h k channels (sym (get-put key k v subs ∙ simp other refl) ∙ e)
]
  where
    some_injective : {x y : List Channel} → some x ≡ some y → x ≡ y
    some_injective q = cc

fan_out-IsBounded :
    (m : Message) (key : Bytes) (subs : GoMap (List Channel))
    → IsBounded subs
    → IsBounded (fan_out m key subs)
unfolding fan_out
fan_out-IsBounded m key subs h = elim (Option-cases (get key subs)) [
  | inl e ↦ rw (e, fan_out) h
  | inr (chs, e) ↦
      rw (e, fan_out)
        (put-IsBounded key (map (offer m) chs) subs (offer-IsWithin m chs (h key chs e)) h)
]

module _ (L : LogStorage) where
  pub record IsSound (b : Broker L) : Type 0 where
    pub agreed : IsConsistent b.tm b.pm
    pub bounded : IsBounded b.subs

  deliver-IsSound :
      (b : Broker L) (topic : Bytes) (a : Appended L)
      → IsConsistent b.tm a.2
      → IsBounded b.subs
      → IsSound (deliver L b topic a).1
  unfolding deliver
  deliver-IsSound b topic (ok (off, part), msg, pm, st) c h = record {
    agreed = c;
    bounded = fan_out-IsBounded _ _ b.subs h;
  }
  deliver-IsSound b topic (err e, msg, pm, st) c h = record { agreed = c; bounded = h }
  deliver-IsSound b topic (panic, msg, pm, st) c h = record { agreed = c; bounded = h }

  -- Any publish, refused or not, keeps the managers in agreement and every buffer within its
  -- capacity.
  pub publish-IsSound :
      (now : ℕ) (b : Broker L) (req : Option PublishRequest)
      → IsSound b
      → IsSound (publish L now b req).1
  unfolding publish
  publish-IsSound now b none s = s
  publish-IsSound now b (some req) s = elim (Bool-cases (is_empty req.topic)) [
    | inl blank ↦ simp blank s
    | inr named ↦ elim (Bool-cases (topic_exists b.tm req.topic)) [
      | inr unknown ↦ simp (named, unknown) s
      | inl known ↦
          simp (named, known)
            (deliver-IsSound b req.topic _
              (append-IsConsistent L now b.tm b.pm b.store req.topic req.partition req.key
                (new_message req) s.agreed)
              s.bounded)
    ]
  ]

  created-IsSound :
      (b : Broker L) (o : Option Error × TopicManager × PartitionManager)
      → IsConsistent o.1 o.2
      → IsBounded b.subs
      → IsSound (created L b o).1
  unfolding created
  created-IsSound b (none, tm, pm) c h = record { agreed = c; bounded = h }
  created-IsSound b (some e, tm, pm) c h = record { agreed = c; bounded = h }

  -- Any request to create a topic, refused or not, keeps the managers in agreement and every buffer
  -- within its capacity.
  pub create_topic-IsSound :
      (now : ℕ) (b : Broker L) (req : Option CreateTopicRequest)
      → IsSound b
      → IsSound (create_topic L now b req).1
  unfolding create_topic
  create_topic-IsSound now b none s = s
  create_topic-IsSound now b (some req) s = elim (Bool-cases (is_empty req.topic)) [
    | inl blank ↦ simp blank s
    | inr named ↦ elim (Bool-cases (leb_ℤ req.partitions (pos 0))) [
      | inl few ↦ simp (named, few) s
      | inr many ↦ elim (Bool-cases (topic_exists b.tm req.topic)) [
        | inl known ↦ simp (named, many, known) s
        | inr unknown ↦
            simp (named, many, unknown)
              (created-IsSound b _
                (create_topic-IsConsistent now b.tm b.pm req.topic req.partitions _ s.agreed)
                s.bounded)
      ]
    ]
  ]

module _ (L : LogStorage) (C : Contract L) where
  -- On an open store that keeps the contract, for a group that the store keeps apart from others
  -- and an offset that it can store, an acknowledgement with a topic and a group succeeds, and the
  -- group's committed offset of that partition is then the acknowledged one.
  pub get_committed-ack :
      (b : Broker L) (req : AckRequest)
      → is_empty req.topic ≡ false
      → is_empty req.group ≡ false
      → C.Open b.store
      → C.IsGroup req.group
      → C.IsOffset req.offset
      → let (e, b') = ack L b (some req) in
        (e ≡ none)
        × (L.get_committed_offset b'.store req.group req.topic req.partition ≡ (req.offset, none))
  unfolding ack
  get_committed-ack b req topic group open_ named small =
      simp (topic, group)
        (
          (C.commit_lem b.store req.group req.topic req.partition req.offset open_ named small).1,
          get_committed-commit L C b.store req.group req.topic req.partition req.offset open_ named
              small,
        )
