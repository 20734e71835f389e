-- ===== src/Broker.antt =====
-- internal/broker/broker.go: `Broker`, its construction and its handlers, with `Subscribe` in a
-- module of its own. A request that may be nil is an `Option`. A subscriber's channel is its
-- buffer, with a number that tells it from others; `Publish` sends with a `select` that has a
-- default, so a send never blocks.
pub mod Publish
pub mod Invariant
pub mod Channels
pub mod Subscribe
pub mod Forward
pub mod Reorder
use go_pub_sub.Prelude.{
  ℕ, Bool, ◌||◌, Option, none, some, List, [], ◌∷◌, ◌++◌, map, length, ltb, if◌then◌else◌,
}
use go_pub_sub.Prelude.Int.{ℤ, pos, leb_ℤ, int32_of}
use go_pub_sub.Text.{Bytes, is_empty}
use go_pub_sub.GoMap.{GoMap, RangeOrder, get, put}
use go_pub_sub.Go.{Error, Result, ok, err, panic, invalid_publish, unknown_topic, invalid_ack}
use go_pub_sub.Storage.{Message, LogStorage}
use go_pub_sub.Partitions
use go_pub_sub.Partitions.{PartitionManager, new_partition_manager, tp_key}
use go_pub_sub.Topics
use go_pub_sub.Topics.{
  TopicInfo, TopicManager, new_topic_manager, topic_exists, get_topic_info, list_topics,
}
use go_pub_sub.Groups.{GroupManager, new_group_manager}

pub record PublishRequest : Type 0 where
  pub topic : Bytes
  pub key : Bytes
  pub value : Bytes
  pub headers : List (Bytes × Bytes)
  pub partition : ℤ

pub record PublishResponse : Type 0 where
  pub topic : Bytes
  pub partition : ℤ
  pub offset : ℤ
  pub timestamp : ℕ

pub record AckRequest : Type 0 where
  pub topic : Bytes
  pub partition : ℤ
  pub offset : ℤ
  pub group : Bytes

pub record CreateTopicRequest : Type 0 where
  pub topic : Bytes
  pub partitions : ℤ
  pub retention_ms : ℤ

-- why a `CreateTopicResponse` or a `TopicInfoResponse` is negative
pub data Reason : Type 0 where
  no_name not_positive already_exists not_found : Reason
  failed : Error → Reason

pub record Channel : Type 0 where
  pub id : ℕ
  pub buffer : List Message

-- ch <- m, unless the buffer of 64 is full
abbrev pub offer : Message → Channel → Channel
offer m ch = if ltb (length ch.buffer) 64 then record ch { buffer = ch.buffer ++ m ∷ [] } else ch

-- for _, ch := range b.subs[key] { ... }
unfoldable pub fan_out : Message → Bytes → GoMap (List Channel) → GoMap (List Channel)
fan_out m key subs = elim (get key subs) [
  | none ↦ subs
  | some channels ↦ put key (map (offer m) channels) subs
]

-- the message that `Publish` hands to the partition manager
abbrev pub new_message : PublishRequest → Message
new_message req = record {
  topic = req.topic;
  partition = pos 0;
  offset = pos 0;
  key = req.key;
  value = req.value;
  headers = req.headers;
  ts = 0;
}

-- what the subscribers get; an `api.Message` has the fields of a `Message`
abbrev pub proto_message : Message → ℤ → ℤ → Message
proto_message msg part off = record msg { partition = part; offset = off }

-- The info of a topic on the wire.
abbrev pub wire_info : TopicInfo → TopicInfo
wire_info ti = record ti { partitions = int32_of ti.partitions }

pub data TopicInfoReply : Type 0 where
  found : TopicInfo → TopicInfoReply
  missing : Reason → TopicInfoReply

abbrev pub info_reply : Option TopicInfo → TopicInfoReply
info_reply none = missing not_found
info_reply (some ti) = found (wire_info ti)

module _ (L : LogStorage) where
  pub record Broker : Type 0 where
    pub store : L.State
    pub pm : PartitionManager
    pub tm : TopicManager
    pub gm : GroupManager
    pub subs : GoMap (List Channel)

  abbrev pub new_broker : L.State → Broker
  new_broker st = record {
    store = st;
    pm = new_partition_manager;
    tm = new_topic_manager;
    gm = new_group_manager;
    subs = [];
  }

  -- the end of `Publish`, on what `pm.Append` returned
  unfoldable pub deliver :
      Broker
      → Bytes
      → Result (ℤ × ℤ) × Message × PartitionManager × L.State
      → Result PublishResponse × Broker
  deliver b topic (ok (off, part), msg, pm, st) = (
    ok (record { topic = topic; partition = part; offset = off; timestamp = msg.ts }),
    record b {
      store = st;
      pm = pm;
      subs = fan_out (proto_message msg part off) (tp_key topic part) b.subs;
    },
  )
  deliver b topic (err e, msg, pm, st) = (err e, record b { store = st; pm = pm })
  deliver b topic (panic, msg, pm, st) = (panic, record b { store = st; pm = pm })

  unfoldable pub publish : ℕ → Broker → Option PublishRequest → Result PublishResponse × Broker
  publish now b none = (err invalid_publish, b)
  publish now b (some req) =
      if is_empty req.topic
      then (err invalid_publish, b)
      else if topic_exists b.tm req.topic
      then deliver b req.topic
          (Partitions.append L now b.pm b.store req.topic req.partition req.key (new_message req))
      else (err (unknown_topic req.topic), b)

  unfoldable pub ack : Broker → Option AckRequest → Option Error × Broker
  ack b none = (some invalid_ack, b)
  ack b (some req) =
      if is_empty req.topic || is_empty req.group
      then (some invalid_ack, b)
      else let (e, st) = L.commit_offset b.store req.group req.topic req.partition req.offset in
        (e, record b { store = st })

  -- Ok, with no reason, is none.
  unfoldable pub created :
      Broker → Option Error × TopicManager × PartitionManager → Option Reason × Broker
  created b (none, tm, pm) = (none, record b { tm = tm; pm = pm })
  created b (some e, tm, pm) = (some (failed e), record b { tm = tm; pm = pm })

  unfoldable pub create_topic : ℕ → Broker → Option CreateTopicRequest → Option Reason × Broker
  create_topic now b none = (some no_name, b)
  create_topic now b (some req) =
      if is_empty req.topic
      then (some no_name, b)
      else if leb_ℤ req.partitions (pos 0)
      then (some not_positive, b)
      else if topic_exists b.tm req.topic
      then (some already_exists, b)
      else let retention_ms =
          if leb_ℤ req.retention_ms (pos 0) then b.tm.default_retention_ms else req.retention_ms in
        created b (Topics.create_topic now b.tm b.pm req.topic req.partitions retention_ms)

  unfoldable pub topic_info : Broker → Option Bytes → TopicInfoReply
  topic_info b none = missing no_name
  topic_info b (some topic) =
      if is_empty topic then missing no_name else info_reply (get_topic_info b.tm topic)

  unfoldable pub list_infos : RangeOrder → Broker → List TopicInfo
  list_infos order b = map wire_info (list_topics order b.tm)
