-- ===== src/Storage/Redis/Backend.antt =====
-- The Redis store as a `LogStorage` (internal/storage/storage.go) that keeps the contract.
use go_pub_sub.Prelude.{ℕ, ◌≡◌, refl, sym, ap, ◌∙◌, subst, false, none, if◌then◌else◌}
use go_pub_sub.Prelude.Int.{ℤ, int32_of}
use go_pub_sub.Text.{Bytes, is_empty}
use go_pub_sub.Text.Decimal.Parse.{IsInt64}
use go_pub_sub.Storage.{Message, LogStorage, Contract, IsAppended, same_commit}
use go_pub_sub.Storage.Redis.{
  RedisStore, with_ts, append, read, close, commit_offset, get_committed_offset,
}
use go_pub_sub.Storage.Redis.Server.{Redis, IsServer, Codec, IsEncodable}
use go_pub_sub.Storage.Redis.Log.{
  IsOpen, log, kept, pushed-IsOpen, log-pushed, append_lem, read_lem,
}
use go_pub_sub.Storage.Redis.Commits.{
  committed, get_committed_lem, committed-pushed, commit_offset_eq, stored-IsOpen, log-stored,
  committed-stored,
}

module _ (R : Redis) (J : Codec) (r : RedisStore) where
  abbrev pub redis : LogStorage
  redis = record {
    State = R.State;
    append = λ now s t p m. append R J now r s t p m;
    read = λ s t p offset max. read R J r s t p offset max;
    commit_offset = λ s g t p offset. commit_offset R J r s g t p offset;
    get_committed_offset = λ s g t p. get_committed_offset R J r s g t p;
    close = λ s. close R J r s;
  }

module _ (R : Redis) (J : Codec) (V : IsServer R) (r : RedisStore) where
  -- While the server is reached, and holds under the store's keys only what the store has written:
  -- an append of a message that names the partition and whose JSON is read back, with no command of
  -- another client in between, returns the next offset of its partition, and adds the message, with its time and that offset,
  -- to the end of the partition's log; every other log, and every committed offset, is as it was.
  pub redis_append :
      (now : ℕ) (s : R.State) (t : Bytes) (p : ℤ) (m : Message)
      → IsOpen R J V r s
      → IsEncodable J (with_ts now m)
      → m.partition ≡ int32_of p
      → let (res, m', s') = append R J now r s t p m in
        IsOpen R J V r s'
        × IsAppended now t p m (log R J V r s) (log R J V r s') res m'
        × ((g' t' : Bytes) (p' : ℤ) → committed R J V r s' g' t' p' ≡ committed R J V r s g' t' p')
  redis_append now s t p m o fit e =
      subst
        (λ a.
          IsOpen R J V r a.2
          × IsAppended now t p m (log R J V r s) (log R J V r a.2) a.0 a.1
          × ((g' t' : Bytes) (p' : ℤ)
              → committed R J V r a.2 g' t' p' ≡ committed R J V r s g' t' p'))
        (sym (append_lem R J V r now s t p m o fit))
        (
          pushed-IsOpen R J V r now s t p m o fit,
          record {
            result = refl;
            kept = kept R J V r now s t p m o fit;
            stored = record {
              topic = refl;
              partition = refl;
              offset = refl;
              key = refl;
              value = refl;
              headers = refl;
              ts = refl;
            };
            returned = refl;
            logs = log-pushed R J V r now s t p m o fit;
          },
          committed-pushed R J V r now s t p m o fit,
        )

  -- While the server is reached, and holds under the store's keys only what the store has written:
  -- a commit for a group with a name succeeds, and sets the committed offset of that group, topic
  -- and partition to the given one, of 64 bits; all others, whatever bytes the groups and topics
  -- hold, and the logs, are as they were.
  pub redis_commit :
      (s : R.State) (g t : Bytes) (p offset : ℤ)
      → IsOpen R J V r s
      → is_empty g ≡ false
      → IsInt64 offset
      → let (e, s') = commit_offset R J r s g t p offset in
        IsOpen R J V r s'
        × (e ≡ none)
        × ((t' : Bytes) (p' : ℤ) → log R J V r s' t' p' ≡ log R J V r s t' p')
        × ((g' t' : Bytes) (p' : ℤ)
            → is_empty g' ≡ false
            → get_committed_offset R J r s' g' t' p' ≡ (
              (if same_commit g t p g' t' p' then offset else committed R J V r s g' t' p'),
              none,
            ))
  redis_commit s g t p offset o named small =
      subst
        (λ a.
          IsOpen R J V r a.1
          × (a.0 ≡ none)
          × ((t' : Bytes) (p' : ℤ) → log R J V r a.1 t' p' ≡ log R J V r s t' p')
          × ((g' t' : Bytes) (p' : ℤ)
              → is_empty g' ≡ false
              → get_committed_offset R J r a.1 g' t' p' ≡ (
                (if same_commit g t p g' t' p' then offset else committed R J V r s g' t' p'),
                none,
              )))
        (sym (commit_offset_eq R J V r s g t p offset o small named))
        (
          stored-IsOpen R J V r s g t p offset o small,
          refl,
          log-stored R J V r s g t p offset o small,
          λ g' t' p' named'.
              get_committed_lem R J V r _ g' t' p' (stored-IsOpen R J V r s g t p offset o small)
                named'
              ∙ ap (λ n. (n, none)) (committed-stored R J V r s g t p offset o small g' t' p'),
        )

  pub committed-redis :
      (s : R.State) (g t : Bytes) (p offset : ℤ)
      → IsOpen R J V r s
      → is_empty g ≡ false
      → IsInt64 offset
      → (g' t' : Bytes) (p' : ℤ) → is_empty g' ≡ false
      → committed R J V r (commit_offset R J r s g t p offset).1 g' t' p'
        ≡ (if same_commit g t p g' t' p' then offset else committed R J V r s g' t' p')
  committed-redis s g t p offset o named small g' t' p' _ =
      ap (λ a. committed R J V r a.1 g' t' p')
        (commit_offset_eq R J V r s g t p offset o small named)
      ∙ committed-stored R J V r s g t p offset o small g' t' p'

  -- The contract, for groups with a name, messages whose JSON is read back and 64-bit offsets.
  abbrev pub redis-Contract : Contract (redis R J r)
  redis-Contract = record {
    Open = λ s. IsOpen R J V r s;
    IsGroup = λ g. is_empty g ≡ false;
    IsMessage = λ m. (now : ℕ) → IsEncodable J (with_ts now m);
    IsOffset = IsInt64;
    log = log R J V r;
    committed = committed R J V r;
    append_lem = λ now s t p m o fit e. redis_append now s t p m o (fit now) e;
    read_lem = λ s t p n o. read_lem R J V r s t p n o;
    commit_lem = λ s g t p offset o named small.
        let (open_, e, logs, got) = redis_commit s g t p offset o named small in
        (open_, e, logs, committed-redis s g t p offset o named small);
    get_committed_lem = λ s g t p o named. get_committed_lem R J V r s g t p o named;
  }
