-- ===== src/Storage/Redis/Log.antt =====
-- `Append` and `Read` of internal/storage/redis_store.go against the logs of the partitions.
use go_pub_sub.Prelude.{
  ℕ, ◌+◌, ◌≡◌, refl, ap, ◌∙◌, sym, subst, Bool, true, false, Option, none, some, List, [], ◌∷◌,
  ◌++◌, arith, length, drop, length-append, if◌then◌else◌,
}
use go_pub_sub.Prelude.Int.{ℤ, pos, negsuc, eq_ℤ_iff, ◌+ℤ◌}
use go_pub_sub.Text.{Bytes, bytes_eq, bytes_eq_iff}
use go_pub_sub.Text.Decimal.Parse.{parse_int}
use go_pub_sub.GoMap.{GoMap, get}
use go_pub_sub.Go.{ok}
use go_pub_sub.Storage.{Message, same_log}
use go_pub_sub.Storage.RoundTrip.{same_log_refl}
use go_pub_sub.Storage.Redis.{
  RedisStore, make_list_key, commit_hash_key, with_ts, push, list_offset, last_index, after_push,
  append, decode_all, decoded, read, rpush_encoded,
}
use go_pub_sub.Storage.Redis.Server.{Redis, IsServer, a_list, entries, fields, Codec, IsEncodable}
use go_pub_sub.Storage.Redis.Keys.{list_key_eq, list_hash_apart}
use go_pub_sub.Storage.Redis.Entries.{
  AllDecode, length-decode_all, drop-decode_all, decode_all-append, AllDecode-append,
}

abbrev pub or_empty : Option (List Bytes) → List Bytes
or_empty none = []
or_empty (some xs) = xs

pub same_log_eq : (t t' : Bytes) (p p' : ℤ) → same_log t p t' p' ≡ true → (t ≡ t') × (p ≡ p')
same_log_eq t t' p p' e = (ground (arith, bytes_eq_iff t t'), ground (arith, eq_ℤ_iff p p'))

module _ (R : Redis) (J : Codec) (V : IsServer R) (r : RedisStore) where
  -- the entries of a partition's list, and the messages that they are
  abbrev pub raws : R.State → Bytes → ℤ → List Bytes
  raws s t p = or_empty (entries (V.value s (make_list_key r t p)))

  abbrev pub log : R.State → Bytes → ℤ → List Message
  log s t p = decode_all R J 0 (raws s t p)

  -- Every field of a hash is a number of 64 bits.
  abbrev pub AllParse : GoMap Bytes → Type 0
  AllParse h = (f v : Bytes) → get f h ≡ some v → (n : ℤ) × (parse_int v ≡ some n)

  -- The server is reached, and under its keys the store finds what it has written.
  pub record IsOpen (s : R.State) : Type 0 where
    pub up : V.Up s
    pub lists :
        (t : Bytes) (p : ℤ)
        → (xs : List Bytes) × (entries (V.value s (make_list_key r t p)) ≡ some xs)
          × AllDecode R J xs
    pub hashes :
        (g : Bytes)
        → (h : GoMap Bytes) × (fields (V.value s (commit_hash_key r g)) ≡ some h) × AllParse h

  pub is_list :
      (s : R.State) (t : Bytes) (p : ℤ)
      → IsOpen s
      → entries (V.value s (make_list_key r t p)) ≡ some (raws s t p)
  is_list s t p o = let (xs, e, _) = o.lists t p in e ∙ ap (λ x. some (or_empty x)) (sym e)

  pub raws-AllDecode : (s : R.State) (t : Bytes) (p : ℤ) → IsOpen s → AllDecode R J (raws s t p)
  raws-AllDecode s t p o =
      let (xs, e, h) = o.lists t p in subst (AllDecode R J) (ap or_empty (sym e)) h

  module _ (now : ℕ) (s : R.State) (t : Bytes) (p : ℤ) (m : Message) (o : IsOpen s)
      (fit : IsEncodable J (with_ts now m)) where
    key : Bytes
    key = make_list_key r t p

    -- the state after the RPUSH
    abbrev pub pushed : R.State
    pushed = (R.rpush s (make_list_key r t p) fit.0).1

    rpush_of :
        V.Up pushed
        × ((R.rpush s (make_list_key r t p) fit.0).0 ≡ none)
        × ((j : Bytes)
            → V.value pushed j ≡ (
                if bytes_eq (make_list_key r t p) j
                then a_list (raws s t p ++ fit.0 ∷ [])
                else V.value s j))
    rpush_of = V.rpush_lem s (make_list_key r t p) fit.0 (raws s t p) o.up (is_list s t p o)

    pub push_lem : push R J now r s t p m ≡ (none, with_ts now m, pushed)
    unfolding push
    push_lem =
        ap (rpush_encoded R J s (make_list_key r t p) (with_ts now m)) fit.1
        ∙ ap (λ e. (e, with_ts now m, pushed)) rpush_of.1

    pub value-pushed :
        (t' : Bytes) (p' : ℤ) (c : Bool)
        → same_log t p t' p' ≡ c
        → V.value pushed (make_list_key r t' p')
          ≡ (if c then a_list (raws s t p ++ fit.0 ∷ []) else V.value s (make_list_key r t' p'))
    value-pushed t' p' c e =
        rpush_of.2 (make_list_key r t' p')
        ∙ ap
            (λ c.
              if c then a_list (raws s t p ++ fit.0 ∷ []) else V.value s (make_list_key r t' p'))
            (list_key_eq r t t' p p' ∙ e)

    pub entries-pushed :
        entries (V.value pushed (make_list_key r t p)) ≡ some (raws s t p ++ fit.0 ∷ [])
    entries-pushed = ap entries (value-pushed t p true (same_log_refl t p))

    pub value_hash :
        (g : Bytes) → V.value pushed (commit_hash_key r g) ≡ V.value s (commit_hash_key r g)
    value_hash g =
        rpush_of.2 (commit_hash_key r g)
        ∙ ap (λ c. if c then a_list (raws s t p ++ fit.0 ∷ []) else V.value s (commit_hash_key r g))
            (list_hash_apart r t g p)

    pub pushed-IsOpen : IsOpen pushed
    pushed-IsOpen = record {
      up = rpush_of.0;
      lists = λ t' p'. listed t' p' (same_log t p t' p') refl;
      hashes = λ g. let (h, e, n) = o.hashes g in (h, ap fields (value_hash g) ∙ e, n);
    }
      where
        listed :
            (t' : Bytes) (p' : ℤ) (c : Bool)
            → same_log t p t' p' ≡ c
            → (xs : List Bytes) × (entries (V.value pushed (make_list_key r t' p')) ≡ some xs)
              × AllDecode R J xs
        listed t' p' true e = (
          raws s t p ++ fit.0 ∷ [],
          ap entries (value-pushed t' p' true e),
          AllDecode-append R J (raws s t p) fit.0 (with_ts now m) (raws-AllDecode s t p o) fit.2,
        )
        listed t' p' false e =
            let (xs, q, h) = o.lists t' p' in (xs, ap entries (value-pushed t' p' false e) ∙ q, h)

    -- what the log gets: the message with its time, and its index for an offset
    abbrev pub kept : Message
    kept = record (with_ts now m) { offset = pos (length (log s t p)) }

    pub log-pushed_at : log pushed t p ≡ log s t p ++ kept ∷ []
    log-pushed_at =
        ap (λ xs. decode_all R J 0 (or_empty xs)) entries-pushed
        ∙ decode_all-append R J 0 (raws s t p) fit.0 (with_ts now m) (raws-AllDecode s t p o) fit.2
        ∙ ap (λ n. log s t p ++ record (with_ts now m) { offset = pos n } ∷ [])
            (omega (arith, length-decode_all R J 0 (raws s t p) (raws-AllDecode s t p o)))

    pub log-pushed :
        (t' : Bytes) (p' : ℤ)
        → log pushed t' p' ≡ (if same_log t p t' p' then log s t' p' ++ kept ∷ [] else log s t' p')
    log-pushed t' p' = by_key (same_log t p t' p') refl
      where
        by_key :
            (c : Bool)
            → same_log t p t' p' ≡ c
            → log pushed t' p' ≡ (if c then log s t' p' ++ kept ∷ [] else log s t' p')
        by_key true e =
            let (q, w) = same_log_eq t t' p p' e in
            subst (λ u. log pushed u p' ≡ log s u p' ++ kept ∷ []) q
              (subst (λ u. log pushed t u ≡ log s t u ++ kept ∷ []) w log-pushed_at)
        by_key false e =
            ap (λ v. decode_all R J 0 (or_empty (entries v))) (value-pushed t' p' false e)

    pub list_offset-pushed : list_offset R J r pushed t p ≡ ok (pos (length (log s t p)))
    unfolding list_offset
    list_offset-pushed =
        ap last_index (
          V.llen_lem pushed (make_list_key r t p) (raws s t p ++ fit.0 ∷ []) pushed-IsOpen.up
            entries-pushed)
        ∙ ap (λ n. ok (pos n +ℤ negsuc 0)) (length-append (raws s t p) (fit.0 ∷ []))
        ∙ ground (arith, length-decode_all R J 0 (raws s t p) (raws-AllDecode s t p o))

    pub append_lem :
        append R J now r s t p m ≡ (ok (pos (length (log s t p))), with_ts now m, pushed)
    unfolding append
    append_lem =
        ap (after_push R J r t p) push_lem ∙ ap (λ q. (q, with_ts now m, pushed)) list_offset-pushed

  -- The LLEN leads to the offset of the last message.
  pub list_offset_lem :
      (s : R.State) (t : Bytes) (p : ℤ) (n : ℕ)
      → IsOpen s
      → length (log s t p) ≡ n + 1
      → list_offset R J r s t p ≡ ok (pos n)
  unfolding list_offset
  list_offset_lem s t p n o e =
      ap last_index (V.llen_lem s (make_list_key r t p) (raws s t p) o.up (is_list s t p o))
      ∙ ground (arith, length-decode_all R J 0 (raws s t p) (raws-AllDecode s t p o))

  -- A read with no limit returns all messages from the offset on.
  pub read_lem :
      (s : R.State) (t : Bytes) (p : ℤ) (n : ℕ)
      → IsOpen s
      → read R J r s t p (pos n) (pos 0) ≡ ok (drop n (log s t p))
  unfolding read
  read_lem s t p n o =
      ap (decoded R J n)
        (V.lrange_lem s (make_list_key r t p) (raws s t p) n o.up (is_list s t p o))
      ∙ ap (λ i. ok (decode_all R J i (drop n (raws s t p)))) (omega arith)
      ∙ ap ok (drop-decode_all R J 0 n (raws s t p) (raws-AllDecode s t p o))
