-- ===== src/Tests/Redis.antt =====
-- The theorems on internal/storage/redis_store.go, on a server that keeps its keys in a map.
use go_pub_sub.Prelude.{
  zero, Bool, ◌+◌, ◌-◌, ◌≡◌, refl, ap, ◌∙◌, subst, sym, false, Option, none, some, List, [], ◌∷◌,
  ◌++◌, length, take, drop, arith, if◌then◌else◌,
}
use go_pub_sub.Prelude.Int.{ℤ, pos, negsuc}
use go_pub_sub.Text.{Bytes, codes, bytes_eq, is_empty}
use go_pub_sub.GoMap.{GoMap, get, put, get-put}
use go_pub_sub.Go.{Error, Result, ok, err, external}
use go_pub_sub.Storage.{Message, IsAppended, same_commit}
use go_pub_sub.Storage.Redis.{
  RedisStore, with_ts, append, push, list_offset, read, commit_offset, get_committed_offset,
}
use go_pub_sub.Storage.Redis.Server.{
  Redis, IsServer, Value, missing, a_list, a_hash, entries, fields, Reply, reply, failed, Codec,
  json, IsEncodable,
}
use go_pub_sub.Storage.Redis.Log.{IsOpen, log}
use go_pub_sub.Storage.Redis.Commits.{committed}
use go_pub_sub.Storage.Redis.Backend.{redis_append, redis_commit}
use go_pub_sub.Storage.Redis.Race.{append_race}
use go_pub_sub.Tests.{orders, billing, message}

abbrev pub or_missing : Option Value → Value
or_missing none = missing
or_missing (some v) = v

-- Redis's error for a command on a key of another type
abbrev pub wrong_type : Error
wrong_type = external 1

abbrev pub pushed_on :
    GoMap Value → Bytes → Bytes → Option (List Bytes) → Option Error × GoMap Value
pushed_on s k v none = (some wrong_type, s)
pushed_on s k v (some xs) = (none, put k (a_list (xs ++ v ∷ [])) s)

abbrev pub set_in :
    GoMap Value → Bytes → Bytes → Bytes → Option (GoMap Bytes) → Option Error × GoMap Value
set_in s k f v none = (some wrong_type, s)
set_in s k f v (some h) = (none, put k (a_hash (put f v h)) s)

abbrev pub length_of : Option (List Bytes) → Result ℤ
length_of none = err wrong_type
length_of (some xs) = ok (pos (length xs))

-- The entries up to an index, or all of them for -1; other indices from the end are not served.
abbrev pub range_of : ℤ → ℤ → Option (List Bytes) → Result (List Bytes)
range_of from stop none = err wrong_type
range_of (pos from) (negsuc zero) (some xs) = ok (drop from xs)
range_of (pos from) (pos stop) (some xs) = ok (take (stop + 1 - from) (drop from xs))
range_of from stop (some xs) = err wrong_type

abbrev pub field_of : Bytes → Option (GoMap Bytes) → Reply
field_of f none = failed wrong_type
field_of f (some h) = reply (get f h)

abbrev pub server : Redis
server = record {
  State = GoMap Value;
  rpush = λ s k v. pushed_on s k v (entries (or_missing (get k s)));
  llen = λ s k. length_of (entries (or_missing (get k s)));
  lrange = λ s k from stop. range_of from stop (entries (or_missing (get k s)));
  hset = λ s k f v. set_in s k f v (fields (or_missing (get k s)));
  hget = λ s k f. field_of f (fields (or_missing (get k s)));
  close = λ s. (none, s);
}

pub value-put :
    (k j : Bytes) (v : Value) (s : GoMap Value)
    → or_missing (get j (put k v s)) ≡ (if bytes_eq k j then v else or_missing (get j s))
value-put k j v s = ap or_missing (get-put k j v s) ∙ by_key (bytes_eq k j)
  where
    by_key :
        (c : Bool)
        → or_missing (if c then some v else get j s) ≡ (if c then v else or_missing (get j s))
    by_key c = ground arith

abbrev pub server-IsServer : IsServer server
server-IsServer = record {
  Up = λ s. Unit {0};
  value = λ s k. or_missing (get k s);
  rpush_lem = λ s k v xs _ e.
      subst
        (λ o.
          Unit {0}
          × ((pushed_on s k v o).0 ≡ none)
          × ((j : Bytes)
              → or_missing (get j (pushed_on s k v o).1)
                ≡ (if bytes_eq k j then a_list (xs ++ v ∷ []) else or_missing (get j s))))
        (sym e) (tt, refl, λ j. value-put k j (a_list (xs ++ v ∷ [])) s);
  llen_lem = λ s k xs _ e. ap length_of e;
  lrange_lem = λ s k xs from _ e. ap (range_of (pos from) (negsuc 0)) e;
  hset_lem = λ s k f v h _ e.
      subst
        (λ o.
          Unit {0}
          × ((set_in s k f v o).0 ≡ none)
          × ((j : Bytes)
              → or_missing (get j (set_in s k f v o).1)
                ≡ (if bytes_eq k j then a_hash (put f v h) else or_missing (get j s))))
        (sym e) (tt, refl, λ j. value-put k j (a_hash (put f v h)) s);
  hget_lem = λ s k f h _ e. ap (field_of f) e;
}

-- a codec that keeps the value, which is all in which the messages below differ
abbrev pub codec : Codec
codec = record {
  marshal = λ m. json m.value;
  unmarshal = λ b. some (record message { value = b; ts = 7 });
}

abbrev pub store : RedisStore
store = record { key_prefix = codes "gopub:" }

pub empty-IsOpen : IsOpen server codec server-IsServer store []
unfolding get
empty-IsOpen = record {
  up = tt;
  lists = λ t p. ([], refl, tt);
  hashes = λ g. ([], refl, λ f v e. absurd (cc e));
}

message-IsEncodable : IsEncodable codec (with_ts 7 message)
message-IsEncodable = (codes "hello", refl, refl)

redis_append_example :
    let (res, m', s') = append server codec 7 store [] orders (pos 0) message in
    IsOpen server codec server-IsServer store s'
    × IsAppended 7 orders
        (pos 0)
        message
        (log server codec server-IsServer store [])
        (log server codec server-IsServer store s')
        res
        m'
    × ((g' t' : Bytes) (p' : ℤ)
        → committed server codec server-IsServer store s' g' t' p'
          ≡ committed server codec server-IsServer store [] g' t' p')
redis_append_example =
    redis_append server codec server-IsServer store 7 [] orders (pos 0) message empty-IsOpen
      message-IsEncodable refl

redis_commit_example :
    let (e, s') = commit_offset server codec store [] billing orders (pos 0) (pos 4) in
    IsOpen server codec server-IsServer store s'
    × (e ≡ none)
    × ((t' : Bytes) (p' : ℤ)
        → log server codec server-IsServer store s' t' p'
          ≡ log server codec server-IsServer store [] t' p')
    × ((g' t' : Bytes) (p' : ℤ)
        → is_empty g' ≡ false
        → get_committed_offset server codec store s' g' t' p' ≡ (
          (if same_commit billing orders (pos 0) g' t' p'
              then pos 4
              else committed server codec server-IsServer store [] g' t' p'),
          none,
        ))
redis_commit_example =
    redis_commit server codec server-IsServer store [] billing orders (pos 0) (pos 4) empty-IsOpen
      refl (omega arith)

abbrev pub reply_message : Message
reply_message = record message { value = codes "bye" }

append_race_example :
    let (e1, m1', s1) = push server codec 7 store [] orders (pos 0) message in
    let (e2, m2', s2) = push server codec 7 store s1 orders (pos 0) reply_message in
    let n = length (log server codec server-IsServer store [] orders (pos 0)) in
    (e1 ≡ none)
    × (e2 ≡ none)
    × (list_offset server codec store s2 orders (pos 0) ≡ ok (pos (n + 1)))
    × (read server codec store s2 orders (pos 0) (pos (n + 1)) (pos 0)
        ≡ ok (record m2' { offset = pos (n + 1) } ∷ []))
append_race_example =
    append_race server codec server-IsServer store 7 7 [] orders (pos 0) message reply_message
      empty-IsOpen message-IsEncodable (codes "bye", refl, refl)
