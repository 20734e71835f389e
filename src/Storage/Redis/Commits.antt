-- ===== src/Storage/Redis/Commits.antt =====
-- The committed offsets of internal/storage/redis_store.go.
use go_pub_sub.Prelude.{
  ℕ, ◌≡◌, refl, ap, ◌∙◌, sym, Bool, true, false, ◌&&◌, Option, none, some, if◌then◌else◌,
}
use go_pub_sub.Prelude.Int.{ℤ, negsuc}
use go_pub_sub.Text.{Bytes, bytes_eq, bytes_eq_iff, is_empty}
use go_pub_sub.Text.Decimal.{decimal}
use go_pub_sub.Text.Decimal.Parse.{parse_int, IsInt64, parse_int-decimal}
use go_pub_sub.GoMap.{GoMap, get, put, get-put}
use go_pub_sub.Go.{Error, invalid_number}
use go_pub_sub.Storage.{Message, same_log, same_commit}
use go_pub_sub.Storage.Memory.Keys.{tkey, tkey_eq}
use go_pub_sub.Storage.Redis.{
  RedisStore, make_list_key, commit_hash_key, commit_offset, get_committed_offset, parse_committed,
  decode_all, with_ts,
}
use go_pub_sub.Storage.Redis.Server.{
  Redis, IsServer, Value, a_hash, entries, fields, reply, Codec, IsEncodable,
}
use go_pub_sub.Storage.Redis.Keys.{hash_key_eq, hash_list_apart}
use go_pub_sub.Storage.Redis.Log.{IsOpen, AllParse, log, or_empty, pushed, value_hash}

-- what the field of a hash says
abbrev pub committed_in : Bytes → Option (GoMap Bytes) → ℤ
committed_in f none = negsuc 0
committed_in f (some h) = (parse_committed (reply (get f h))).0

committed_in-put :
    (f f' v : Bytes) (n : ℤ) (h : GoMap Bytes)
    → parse_int v ≡ some n
    → committed_in f' (some (put f v h)) ≡ (if bytes_eq f f' then n else committed_in f' (some h))
committed_in-put f f' v n h e =
    ap (λ o. (parse_committed (reply o)).0) (get-put f f' v h) ∙ by_key (bytes_eq f f')
  where
    by_key :
        (c : Bool)
        → (parse_committed (reply (if c then some v else get f' h))).0
          ≡ (if c then n else (parse_committed (reply (get f' h))).0)
    by_key true =
        ap {B = ℤ}
          (λ o.
            (elim o as (λ _. ℤ × Option Error) [
              | some n ↦ (n, none)
              | none ↦ (negsuc 0, some invalid_number)
            ]).0)
          e
    by_key false = refl

parse_committed-parsed :
    (f : Bytes) (h : GoMap Bytes) (o : Option Bytes)
    → get f h ≡ o
    → ((v : Bytes) → get f h ≡ some v → (n : ℤ) × (parse_int v ≡ some n))
    → parse_committed (reply o) ≡ ((parse_committed (reply o)).0, none)
parse_committed-parsed f h none e parses = refl
parse_committed-parsed f h (some v) e parses = let (n, q) = parses v e in by_value (parse_int v) n q
  where
    by_value :
        (o : Option ℤ) (n : ℤ)
        → o ≡ some n
        → Path
            (ℤ × Option Error)
            (elim o [ some k ↦ (k, none) | none ↦ (negsuc 0, some invalid_number) ])
            (
              (elim o as (λ _. ℤ × Option Error) [
                | some k ↦ (k, none)
                | none ↦ (negsuc 0, some invalid_number)
              ]).0,
              none,
            )
    by_value none n q = absurd (cc q)
    by_value (some k) n q = refl

module _ (R : Redis) (J : Codec) (V : IsServer R) (r : RedisStore) where
  abbrev pub committed : R.State → Bytes → Bytes → ℤ → ℤ
  committed s g t p = committed_in (tkey t p) (fields (V.value s (commit_hash_key r g)))

  pub get_committed_lem :
      (s : R.State) (g t : Bytes) (p : ℤ)
      → IsOpen R J V r s
      → is_empty g ≡ false
      → get_committed_offset R J r s g t p ≡ (committed s g t p, none)
  unfolding get_committed_offset
  get_committed_lem s g t p o named =
      let (h, e, parses) = o.hashes g in
      rw (named, get_committed_offset)
        (ap parse_committed (V.hget_lem s (commit_hash_key r g) (tkey t p) h o.up e)
          ∙ parse_committed-parsed (tkey t p) h (get (tkey t p) h) refl (parses (tkey t p))
          ∙ ap (λ x. (committed_in (tkey t p) x, none)) (sym e))

  -- A message that is appended leaves every committed offset as it was.
  pub committed-pushed :
      (now : ℕ) (s : R.State) (t : Bytes) (p : ℤ) (m : Message) (o : IsOpen R J V r s)
      (fit : IsEncodable J (with_ts now m)) (g' t' : Bytes) (p' : ℤ)
      → committed (pushed R J V r now s t p m o fit) g' t' p' ≡ committed s g' t' p'
  committed-pushed now s t p m o fit g' t' p' =
      ap (λ v. committed_in (tkey t' p') (fields v)) (value_hash R J V r now s t p m o fit g')

  module _ (s : R.State) (g t : Bytes) (p offset : ℤ) (o : IsOpen R J V r s)
      (small : IsInt64 offset) where
    fields_at : GoMap Bytes
    fields_at = (o.hashes g).0

    -- the state after the HSET
    abbrev pub stored : R.State
    stored = (R.hset s (commit_hash_key r g) (tkey t p) (decimal offset)).1

    hset_of :
        V.Up stored
        × ((R.hset s (commit_hash_key r g) (tkey t p) (decimal offset)).0 ≡ none)
        × ((j : Bytes)
            → V.value stored j ≡ (
                if bytes_eq (commit_hash_key r g) j
                then a_hash (put (tkey t p) (decimal offset) fields_at)
                else V.value s j))
    unfolding fields_at
    hset_of =
        V.hset_lem s (commit_hash_key r g) (tkey t p) (decimal offset) (o.hashes g).0 o.up
          (o.hashes g).1

    pub commit_offset_eq : is_empty g ≡ false → commit_offset R J r s g t p offset ≡ (none, stored)
    unfolding commit_offset
    commit_offset_eq named = rw (named, commit_offset) (ap (λ e. (e, stored)) hset_of.1)

    value_list :
        (t' : Bytes) (p' : ℤ)
        → V.value stored (make_list_key r t' p') ≡ V.value s (make_list_key r t' p')
    value_list t' p' =
        hset_of.2 (make_list_key r t' p')
        ∙ ap
            (λ c.
              if c
              then a_hash (put (tkey t p) (decimal offset) fields_at)
              else V.value s (make_list_key r t' p'))
            (hash_list_apart r t' g p')

    fields-stored :
        (g' : Bytes) (c : Bool)
        → bytes_eq g g' ≡ c
        → fields (V.value stored (commit_hash_key r g')) ≡ (
            if c
            then some (put (tkey t p) (decimal offset) fields_at)
            else fields (V.value s (commit_hash_key r g')))
    fields-stored g' c e =
        ap fields (
          hset_of.2 (commit_hash_key r g')
          ∙ ap
              (λ c.
                if c
                then a_hash (put (tkey t p) (decimal offset) fields_at)
                else V.value s (commit_hash_key r g'))
              (hash_key_eq r g g' ∙ e))
        ∙ pick c (put (tkey t p) (decimal offset) fields_at) (V.value s (commit_hash_key r g'))
      where
        pick :
            (c : Bool) (a : GoMap Bytes) (v : Value)
            → fields (if c then a_hash a else v) ≡ (if c then some a else fields v)
        pick true a v = refl
        pick false a v = refl

    AllParse-put : AllParse R J V r (put (tkey t p) (decimal offset) fields_at)
    unfolding fields_at
    AllParse-put f v e =
        by_key (bytes_eq (tkey t p) f)
          (sym (get-put (tkey t p) f (decimal offset) (o.hashes g).0) ∙ e)
      where
        by_key :
            (c : Bool)
            → (if c then some (decimal offset) else get f (o.hashes g).0) ≡ some v
            → (n : ℤ) × (parse_int v ≡ some n)
        by_key true q = (offset, ap parse_int (sym (inside q)) ∙ parse_int-decimal offset small)
          where
            inside : {x y : Bytes} → some x ≡ some y → x ≡ y
            inside q = cc
        by_key false q = (o.hashes g).2 f v q

    pub stored-IsOpen : IsOpen R J V r stored
    stored-IsOpen = record {
      up = hset_of.0;
      lists = λ t' p'. let (xs, e, h) = o.lists t' p' in (xs, ap entries (value_list t' p') ∙ e, h);
      hashes = λ g'. hashed g' (bytes_eq g g') refl;
    }
      where
        hashed :
            (g' : Bytes) (c : Bool)
            → bytes_eq g g' ≡ c
            → (h : GoMap Bytes) × (fields (V.value stored (commit_hash_key r g')) ≡ some h)
              × AllParse R J V r h
        hashed g' true e =
            (put (tkey t p) (decimal offset) fields_at, fields-stored g' true e, AllParse-put)
        hashed g' false e = let (h, q, n) = o.hashes g' in (h, fields-stored g' false e ∙ q, n)

    pub log-stored : (t' : Bytes) (p' : ℤ) → log R J V r stored t' p' ≡ log R J V r s t' p'
    log-stored t' p' = ap (λ v. decode_all R J 0 (or_empty (entries v))) (value_list t' p')

    pub committed-stored :
        (g' t' : Bytes) (p' : ℤ)
        → committed stored g' t' p'
          ≡ (if same_commit g t p g' t' p' then offset else committed s g' t' p')
    unfolding fields_at
    committed-stored g' t' p' = by_group (bytes_eq g g') refl
      where
        by_group :
            (c : Bool)
            → bytes_eq g g' ≡ c
            → committed stored g' t' p'
              ≡ (if c && same_log t p t' p' then offset else committed s g' t' p')
        by_group true e =
            ap (committed_in (tkey t' p')) (fields-stored g' true e)
            ∙ committed_in-put (tkey t p) (tkey t' p') (decimal offset) offset (o.hashes g).0
                (parse_int-decimal offset small)
            ∙ ap (λ c. if c then offset else committed_in (tkey t' p') (some (o.hashes g).0))
                (tkey_eq t t' p p')
            ∙ ap (λ x. if same_log t p t' p' then offset else committed_in (tkey t' p') x)
                (sym (o.hashes g).1
                  ∙ ap (λ k. fields (V.value s (commit_hash_key r k))) ((bytes_eq_iff g g').0 e))
        by_group false e = ap (committed_in (tkey t' p')) (fields-stored g' false e)
