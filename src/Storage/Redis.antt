-- ===== src/Storage/Redis.antt =====
-- internal/storage/redis_store.go: `RedisStore`, on the commands of a Redis server and on the JSON
-- codec of messages, which are parameters: see Server. A message that a method gets is not nil.
pub mod Server
pub mod Keys
pub mod Entries
pub mod Log
pub mod Commits
pub mod Backend
pub mod Race
use go_pub_sub.Prelude.{
  ℕ, suc, ◌+◌, ◌-◌, Bool, true, false, Option, none, some, List, [], ◌∷◌, ◌++◌, ◌==◌, ◌⊎◌, inl, inr,
  if◌then◌else◌,
}
use go_pub_sub.Prelude.Int.{ℤ, pos, negsuc, ◌+ℤ◌, pos_part, leb_ℤ, int64_of}
use go_pub_sub.Text.{Bytes, codes, is_empty}
use go_pub_sub.Text.Decimal.{decimal}
use go_pub_sub.Text.Decimal.Parse.{parse_int}
use go_pub_sub.Go.{Error, Result, ok, err, panic, group_required, invalid_number, redis_ping_failed}
use go_pub_sub.Storage.{Message}
use go_pub_sub.Storage.Memory.Keys.{tkey}
use Server.{Redis, Reply, found, no_field, failed, Codec, Encoded, json, unencodable}

-- The client is the parameter `R`, and the context is always the background one.
pub record RedisStore : Type 0 where
  pub key_prefix : Bytes

-- `ping` is what the first call to the server returns.
abbrev pub new_redis_store : Option Error → Bytes → Error ⊎ RedisStore
new_redis_store (some e) key_prefix = inl (redis_ping_failed e)
new_redis_store none key_prefix =
    inr (record { key_prefix = if is_empty key_prefix then codes "gopub:" else key_prefix })

-- fmt.Sprintf("%smsg:%s:%d", r.keyPrefix, topic, partition)
unfoldable pub make_list_key : RedisStore → Bytes → ℤ → Bytes
make_list_key r topic partition = r.key_prefix ++ (codes "msg:" ++ tkey topic partition)

-- fmt.Sprintf("%scommit:%s", r.keyPrefix, group)
unfoldable pub commit_hash_key : RedisStore → Bytes → Bytes
commit_hash_key r group = r.key_prefix ++ (codes "commit:" ++ group)

-- if msg.Ts.IsZero() { msg.Ts = time.Now().UTC() }
abbrev pub with_ts : ℕ → Message → Message
with_ts now msg = record msg { ts = if msg.ts == 0 then now else msg.ts }

-- `l - 1`, which does not wrap since no list has a negative length
abbrev pub last_index : Result ℤ → Result ℤ
last_index (ok l) = ok (l +ℤ negsuc 0)
last_index (err e) = err e
last_index panic = panic

-- The value of a hash field: no such field, a number, or a text that is none.
abbrev pub parse_committed : Reply → ℤ × Option Error
parse_committed no_field = (negsuc 0, none)
parse_committed (found val) = elim (parse_int val) [
  | some n ↦ (n, none)
  | none ↦ (negsuc 0, some invalid_number)
]
parse_committed (failed e) = (negsuc 0, some e)

module _ (R : Redis) (J : Codec) where
  -- `Append` up to the RPUSH: an error, or none and the message with its time.
  abbrev pub rpush_encoded : R.State → Bytes → Message → Encoded → Option Error × Message × R.State
  rpush_encoded s key msg (json b) = let (e, s') = R.rpush s key b in (e, msg, s')
  rpush_encoded s key msg (unencodable e) = (some e, msg, s)

  unfoldable pub push :
      ℕ → RedisStore → R.State → Bytes → ℤ → Message → Option Error × Message × R.State
  push now r s topic partition msg =
      let msg' = with_ts now msg in
      rpush_encoded s (make_list_key r topic partition) msg' (J.marshal msg')

  -- `Append` from the LLEN on.
  unfoldable pub list_offset : RedisStore → R.State → Bytes → ℤ → Result ℤ
  list_offset r s topic partition = last_index (R.llen s (make_list_key r topic partition))

  abbrev pub after_push :
      RedisStore → Bytes → ℤ → Option Error × Message × R.State → Result ℤ × Message × R.State
  after_push r topic partition (some e, msg, s) = (err e, msg, s)
  after_push r topic partition (none, msg, s) = (list_offset r s topic partition, msg, s)

  -- The whole method, with no command of another client in between.
  unfoldable pub append :
      ℕ → RedisStore → R.State → Bytes → ℤ → Message → Result ℤ × Message × R.State
  append now r s topic partition msg =
      after_push r topic partition (push now r s topic partition msg)

  -- for i := range raw { ... }, from the index `i` on: an entry that is no message is skipped
  unfoldable pub decode_all : ℕ → List Bytes → List Message
  decode_all i [] = []
  decode_all i (raw ∷ raws) =
      let rest = decode_all (suc i) raws in
      elim (J.unmarshal raw) [ some m ↦ record m { offset = pos i } ∷ rest | none ↦ rest ]

  -- stop, which is the last index; -1 is the last entry
  abbrev pub last_to_read : ℕ → ℤ → ℤ
  last_to_read start max =
      if leb_ℤ max (pos 0) then negsuc 0 else int64_of (int64_of (pos start +ℤ max) +ℤ negsuc 0)

  abbrev pub decoded : ℕ → Result (List Bytes) → Result (List Message)
  decoded start (ok raws) = ok (decode_all start raws)
  decoded start (err e) = err e
  decoded start panic = panic

  unfoldable pub read : RedisStore → R.State → Bytes → ℤ → ℤ → ℤ → Result (List Message)
  read r s topic partition offset max =
      let start = pos_part offset in
      decoded start
        (R.lrange s (make_list_key r topic partition) (pos start) (last_to_read start max))

  unfoldable pub commit_offset :
      RedisStore → R.State → Bytes → Bytes → ℤ → ℤ → Option Error × R.State
  commit_offset r s group topic partition offset =
      if is_empty group
      then (some group_required, s)
      else R.hset s (commit_hash_key r group) (tkey topic partition) (decimal offset)

  unfoldable pub get_committed_offset : RedisStore → R.State → Bytes → Bytes → ℤ → ℤ × Option Error
  get_committed_offset r s group topic partition =
      if is_empty group
      then (negsuc 0, some group_required)
      else parse_committed (R.hget s (commit_hash_key r group) (tkey topic partition))

  unfoldable pub close : RedisStore → R.State → Option Error × R.State
  close r s = R.close s
