-- ===== src/Broker/Channels/Registry.antt =====
-- The life of the channels of internal/broker/broker.go, with all handlers interleaved: no message
-- is offered to a closed channel.
use go_pub_sub.Prelude.{
  ℕ, ◌≡◌, refl, sym, ap, ◌∙◌, subst, true, Option, none, some, List, [], ◌∷◌, arith, ◌==◌, ==_iff,
  Bool-cases, inl, inr,
}
use go_pub_sub.Prelude.Int.{pos, leb_ℤ}
use go_pub_sub.Text.{Bytes, is_empty}
use go_pub_sub.GoMap.{get}
use go_pub_sub.Storage.{LogStorage}
use go_pub_sub.Broker.{
  Broker, Channel, PublishRequest, CreateTopicRequest, AckRequest, publish, deliver, ack,
  create_topic, created, new_broker,
}
use go_pub_sub.Partitions.{PartitionManager, Appended}
use go_pub_sub.Topics.{TopicManager, topic_exists}
use go_pub_sub.Go.{Error, ok, err, panic}
use go_pub_sub.Broker.Channels.{take_message, receive, register, unregister}
use go_pub_sub.Broker.Channels.Phases.{
  Phase, unused, attached, detached, closed, set_phase, contains, IsLive, AllLive,
  take_message-IsLive, not_contained,
}
use go_pub_sub.Broker.Channels.Live.{
  update-AllLive, add_channel-AllLive, detach-AllLive, remove_channel-AllLive, fan_out-AllLive,
}

module _ (L : LogStorage) where
  -- A call by any client, or a piece of a subscription: `make` gives an unused channel, which is
  -- put under a key; its own subscription takes it out again, and closes it after that.
  pub data Step : Broker L → (ℕ → Phase) → Broker L → (ℕ → Phase) → Type 0 where
    publishes :
        {b : Broker L} {phase : ℕ → Phase} (now : ℕ) (req : Option PublishRequest)
        → Step b phase (publish L now b req).1 phase
    acks :
        {b : Broker L} {phase : ℕ → Phase} (req : Option AckRequest)
        → Step b phase (ack L b req).1 phase
    creates :
        {b : Broker L} {phase : ℕ → Phase} (now : ℕ) (req : Option CreateTopicRequest)
        → Step b phase (create_topic L now b req).1 phase
    registers :
        {b : Broker L} {phase : ℕ → Phase} (id : ℕ) (key : Bytes)
        → phase id ≡ unused
        → Step b phase (register L id key b) (set_phase id (attached key) phase)
    receives :
        {b : Broker L} {phase : ℕ → Phase} (id : ℕ) (key : Bytes)
        → phase id ≡ attached key
        → Step b phase (receive L id key b) phase
    unregisters :
        {b : Broker L} {phase : ℕ → Phase} (id : ℕ) (key : Bytes)
        → phase id ≡ attached key
        → Step b phase (unregister L id key b) (set_phase id detached phase)
    closes :
        {b : Broker L} {phase : ℕ → Phase} (id : ℕ)
        → phase id ≡ detached
        → Step b phase b (set_phase id closed phase)

  pub data Reach (st : L.State) : Broker L → (ℕ → Phase) → Type 0 where
    start : Reach st (new_broker L st) (λ _. unused)
    later :
        {b b' : Broker L} {phase phase' : ℕ → Phase}
        → Reach st b phase
        → Step b phase b' phase'
        → Reach st b' phase'

  deliver-AllLive :
      (phase : ℕ → Phase) (b : Broker L) (topic : Bytes) (a : Appended L)
      → AllLive phase b.subs
      → AllLive phase (deliver L b topic a).1.subs
  unfolding deliver
  deliver-AllLive phase b topic (ok (off, part), msg, pm, st) live =
      fan_out-AllLive phase _ _ b.subs live
  deliver-AllLive phase b topic (err e, msg, pm, st) live = live
  deliver-AllLive phase b topic (panic, msg, pm, st) live = live

  publish-AllLive :
      (now : ℕ) (req : Option PublishRequest) (phase : ℕ → Phase) (b : Broker L)
      → AllLive phase b.subs
      → AllLive phase (publish L now b req).1.subs
  unfolding publish
  publish-AllLive now none phase b live = live
  publish-AllLive now (some req) phase b live = elim (Bool-cases (is_empty req.topic)) [
    | inl blank ↦ simp blank live
    | inr named ↦ elim (Bool-cases (topic_exists b.tm req.topic)) [
      | inr unknown ↦ simp (named, unknown) live
      | inl known ↦ simp (named, known) (deliver-AllLive phase b req.topic _ live)
    ]
  ]

  subs-created :
      (b : Broker L) (o : Option Error × TopicManager × PartitionManager)
      → (created L b o).1.subs ≡ b.subs
  unfolding created
  subs-created b (none, tm, pm) = refl
  subs-created b (some e, tm, pm) = refl

  subs-create_topic :
      (now : ℕ) (b : Broker L) (req : Option CreateTopicRequest)
      → (create_topic L now b req).1.subs ≡ b.subs
  unfolding create_topic
  subs-create_topic now b none = refl
  subs-create_topic now b (some req) = elim (Bool-cases (is_empty req.topic)) [
    | inl blank ↦ simp blank refl
    | inr named ↦ elim (Bool-cases (leb_ℤ req.partitions (pos 0))) [
      | inl few ↦ simp (named, few) refl
      | inr many ↦ elim (Bool-cases (topic_exists b.tm req.topic)) [
        | inl known ↦ simp (named, many, known) refl
        | inr unknown ↦ simp (named, many, unknown) (subs-created b _)
      ]
    ]
  ]

  subs-ack : (b : Broker L) (req : Option AckRequest) → (ack L b req).1.subs ≡ b.subs
  unfolding ack
  subs-ack b none = refl
  subs-ack b (some req) = ground arith

  Step-AllLive :
      {b b' : Broker L} {phase phase' : ℕ → Phase}
      → Step b phase b' phase'
      → AllLive phase b.subs
      → AllLive phase' b'.subs
  unfolding receive register unregister
  Step-AllLive (publishes {b} {phase} now req) live = publish-AllLive now req phase b live
  Step-AllLive (acks {b} {phase} req) live = subst (AllLive phase) (sym (subs-ack b req)) live
  Step-AllLive (creates {b} {phase} now req) live =
      subst (AllLive phase) (sym (subs-create_topic now b req)) live
  Step-AllLive (registers {b} {phase} id key fresh) live =
      add_channel-AllLive phase b.subs live id key fresh
  Step-AllLive (receives {b} {phase} id key at_) live =
      update-AllLive phase b.subs live (take_message id) key (take_message-IsLive id phase key)
  Step-AllLive (unregisters {b} {phase} id key at_) live =
      remove_channel-AllLive phase b.subs live id key at_
  Step-AllLive (closes {b} {phase} id gone) live =
      detach-AllLive phase b.subs live id closed
        (λ k channels e. not_contained phase k id channels (live k channels e) (λ q. clash gone q))
    where
      clash : {k : Bytes} {p : Phase} → p ≡ detached → p ≡ attached k → ⊥
      clash x y = cc

  Reach-AllLive :
      (st : L.State) {b : Broker L} {phase : ℕ → Phase} → Reach st b phase → AllLive phase b.subs
  unfolding get
  Reach-AllLive st start = λ key channels e. absurd (cc e)
  Reach-AllLive st (later r step) = Step-AllLive step (Reach-AllLive st r)

  contains_attached :
      (phase : ℕ → Phase) (key : Bytes) (id : ℕ) (channels : List Channel)
      → IsLive phase key channels
      → contains id channels ≡ true
      → phase id ≡ attached key
  contains_attached phase key id [] h e = cc
  contains_attached phase key id (ch ∷ channels) (at_, once, rest) e =
      elim (Bool-cases (ch.id == id)) [
        | inl same ↦ ap phase (sym ((==_iff ch.id id).0 same)) ∙ at_
        | inr other ↦ contains_attached phase key id channels rest (simp other at e)
      ]

  -- With any interleaving of publishes, acknowledgements, creations of topics and subscriptions
  -- that register, receive, unregister and close: a channel to which a publish can offer a message
  -- is still attached to the key under which it stands, and to no other; none is closed.
  pub offered_attached :
      (st : L.State) (b : Broker L) (phase : ℕ → Phase)
      → Reach st b phase
      → (key : Bytes) (channels : List Channel) (id : ℕ) → get key b.subs ≡ some channels
      → contains id channels ≡ true
      → phase id ≡ attached key
  offered_attached st b phase r key channels id e there =
      contains_attached phase key id channels (Reach-AllLive st r key channels e) there
