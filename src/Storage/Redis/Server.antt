-- ===== src/Storage/Redis/Server.antt =====
-- What internal/storage/redis_store.go uses from outside: the commands of a Redis server, as
-- github.com/redis/go-redis sends them, with their documented effects, and Go's JSON of a message.
use go_pub_sub.Prelude.{
  ℕ, ◌≡◌, Option, none, some, List, [], ◌∷◌, ◌++◌, drop, length, if◌then◌else◌,
}
use go_pub_sub.Prelude.Int.{ℤ, pos, negsuc}
use go_pub_sub.Text.{Bytes, bytes_eq}
use go_pub_sub.GoMap.{GoMap, get, put}
use go_pub_sub.Go.{Error, Result, ok}
use go_pub_sub.Storage.{Message}

-- what HGET returns; `redis.Nil` is the client's error for a field that is not there
pub data Reply : Type 0 where
  found : Bytes → Reply
  no_field : Reply
  failed : Error → Reply

abbrev pub reply : Option Bytes → Reply
reply none = no_field
reply (some v) = found v

-- The commands. One that fails gives its error.
pub record Redis : Type 1 where
  pub State : Type 0
  pub rpush : State → Bytes → Bytes → Option Error × State
  pub llen : State → Bytes → Result ℤ
  pub lrange : State → Bytes → ℤ → ℤ → Result (List Bytes)
  pub hset : State → Bytes → Bytes → Bytes → Option Error × State
  pub hget : State → Bytes → Bytes → Reply
  pub close : State → Option Error × State

-- what a key of the server holds
pub data Value : Type 0 where
  missing : Value
  a_list : List Bytes → Value
  a_hash : GoMap Bytes → Value

-- A command on a list or on a hash takes a missing key for an empty one, and refuses another type.
abbrev pub entries : Value → Option (List Bytes)
entries missing = some []
entries (a_list xs) = some xs
entries (a_hash h) = none

abbrev pub fields : Value → Option (GoMap Bytes)
fields missing = some []
fields (a_list xs) = none
fields (a_hash h) = some h

-- The documented effects of the commands, while the server is reached.
pub record IsServer (R : Redis) : Type 1 where
  pub Up : R.State → Type 0
  pub value : R.State → Bytes → Value
  pub rpush_lem :
      (s : R.State) (k v : Bytes) (xs : List Bytes)
      → Up s
      → entries (value s k) ≡ some xs
      → let (e, s') = R.rpush s k v in
        Up s'
        × (e ≡ none)
        × ((j : Bytes) → value s' j ≡ (if bytes_eq k j then a_list (xs ++ v ∷ []) else value s j))
  pub llen_lem :
      (s : R.State) (k : Bytes) (xs : List Bytes)
      → Up s
      → entries (value s k) ≡ some xs
      → R.llen s k ≡ ok (pos (length xs))
  pub lrange_lem :
      (s : R.State) (k : Bytes) (xs : List Bytes) (from : ℕ)
      → Up s
      → entries (value s k) ≡ some xs
      → R.lrange s k (pos from) (negsuc 0) ≡ ok (drop from xs)
  pub hset_lem :
      (s : R.State) (k f v : Bytes) (h : GoMap Bytes)
      → Up s
      → fields (value s k) ≡ some h
      → let (e, s') = R.hset s k f v in
        Up s'
        × (e ≡ none)
        × ((j : Bytes) → value s' j ≡ (if bytes_eq k j then a_hash (put f v h) else value s j))
  pub hget_lem :
      (s : R.State) (k f : Bytes) (h : GoMap Bytes)
      → Up s
      → fields (value s k) ≡ some h
      → R.hget s k f ≡ reply (get f h)

pub data Encoded : Type 0 where
  json : Bytes → Encoded
  unencodable : Error → Encoded

-- `json.Marshal` and `json.Unmarshal` of a message; a text that is no message is none.
pub record Codec : Type 0 where
  pub marshal : Message → Encoded
  pub unmarshal : Bytes → Option Message

-- The JSON of a message is read back as the message: in practice, of one whose strings are UTF-8.
abbrev pub IsEncodable : Codec → Message → Type 0
IsEncodable J m = (b : Bytes) × (J.marshal m ≡ json b) × (J.unmarshal b ≡ some m)
