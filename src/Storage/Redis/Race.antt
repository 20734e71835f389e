-- ===== src/Storage/Redis/Race.antt =====
-- Two processes that append to one list, in internal/storage/redis_store.go.
use go_pub_sub.Prelude.{
  ℕ, ◌+◌, ◌≡◌, refl, sym, ap, ◌∙◌, subst, Option, none, [], ◌∷◌, ◌++◌, length, drop, drop_at_length,
  length-append, arith,
}
use go_pub_sub.Prelude.Int.{ℤ, pos}
use go_pub_sub.Text.{Bytes}
use go_pub_sub.Go.{Error, ok}
use go_pub_sub.Storage.{Message}
use go_pub_sub.Storage.Redis.{RedisStore, with_ts, push, list_offset, read}
use go_pub_sub.Storage.Redis.Server.{Redis, IsServer, Codec, IsEncodable}
use go_pub_sub.Storage.Redis.Log.{
  IsOpen, log, pushed, kept, pushed-IsOpen, push_lem, log-pushed_at, list_offset-pushed, read_lem,
}

module _ (R : Redis) (J : Codec) (V : IsServer R) (r : RedisStore) where
  -- what holds after two RPUSHes, where the list had `n` messages before
  abbrev Raced : Bytes → ℤ → ℕ → Option Error → Option Error × Message × R.State → Type 0
  Raced t p n e1 (e2, m2', s2) =
      (e1 ≡ none)
      × (e2 ≡ none)
      × (list_offset R J r s2 t p ≡ ok (pos (n + 1)))
      × (read R J r s2 t p (pos (n + 1)) (pos 0) ≡ ok (record m2' { offset = pos (n + 1) } ∷ []))

  -- If a process appends to a partition between the RPUSH and the LLEN of another's `Append` there,
  -- that `Append` returns the offset of the other process's message: the RPUSH of `m2` comes after
  -- that of `m1`, and the length that both then see leads to the offset at which a read finds `m2`.
  -- The server is reached, holds what the store has written, and reads back both messages.
  pub append_race :
      (now now' : ℕ) (s : R.State) (t : Bytes) (p : ℤ) (m1 m2 : Message)
      → IsOpen R J V r s
      → IsEncodable J (with_ts now m1)
      → IsEncodable J (with_ts now' m2)
      → let (e1, m1', s1) = push R J now r s t p m1 in
        let (e2, m2', s2) = push R J now' r s1 t p m2 in
        let n = length (log R J V r s t p) in
        (e1 ≡ none)
        × (e2 ≡ none)
        × (list_offset R J r s2 t p ≡ ok (pos (n + 1)))
        × (read R J r s2 t p (pos (n + 1)) (pos 0) ≡ ok (record m2' { offset = pos (n + 1) } ∷ []))
  append_race now now' s t p m1 m2 o fit1 fit2 =
      subst (λ a. Raced t p (length (log R J V r s t p)) a.0 (push R J now' r a.2 t p m2))
        (sym (push_lem R J V r now s t p m1 o fit1))
        (subst (λ a. Raced t p (length (log R J V r s t p)) none a)
          (sym (push_lem R J V r now' s1 t p m2 o1 fit2))
          (
            refl,
            refl,
            list_offset-pushed R J V r now' s1 t p m2 o1 fit2 ∙ ap (λ n. ok (pos n)) longer,
            read_lem R J V r s2 t p _ (pushed-IsOpen R J V r now' s1 t p m2 o1 fit2)
                ∙ ap ok (
                    ap (drop _) (log-pushed_at R J V r now' s1 t p m2 o1 fit2)
                    ∙ ap
                        (λ n.
                          drop n (log R J V r s1 t p ++ kept R J V r now' s1 t p m2 o1 fit2 ∷ []))
                        (sym longer)
                    ∙ drop_at_length (log R J V r s1 t p) _
                    ∙ ap (λ n. record (with_ts now' m2) { offset = pos n } ∷ []) longer),
          ))
    where
      s1 : R.State
      s1 = pushed R J V r now s t p m1 o fit1

      o1 : IsOpen R J V r s1
      o1 = pushed-IsOpen R J V r now s t p m1 o fit1

      s2 : R.State
      s2 = pushed R J V r now' s1 t p m2 o1 fit2

      longer : length (log R J V r s1 t p) ≡ length (log R J V r s t p) + 1
      longer =
          ap length (log-pushed_at R J V r now s t p m1 o fit1)
          ∙ length-append (log R J V r s t p) (kept R J V r now s t p m1 o fit1 ∷ [])
          ∙ omega arith
