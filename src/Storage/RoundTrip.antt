-- ===== src/Storage/RoundTrip.antt =====
-- What a client of internal/storage/storage.go gets from any backend that keeps the contract.
use go_pub_sub.Prelude.{
  ℕ, ◌≡◌, ◌∷◌, [], none, arith, ap, sym, ◌∙◌, length, drop, drop_at_length, true,
}
use go_pub_sub.Prelude.Int.{ℤ, pos, int32_of, eq_ℤ_iff}
use go_pub_sub.Text.{Bytes, bytes_eq_refl}
use go_pub_sub.Go.{ok}
use go_pub_sub.Storage.{Message, LogStorage, Contract, same_log}

pub same_log_refl : (t : Bytes) (p : ℤ) → same_log t p t p ≡ true
same_log_refl t p = ground (arith, bytes_eq_refl t, eq_ℤ_iff p p)

module _ (L : LogStorage) (C : Contract L) where
  open L use {State, append, read, commit_offset, get_committed_offset}
  open C use {
    Open, IsGroup, IsMessage, IsOffset, append_lem, read_lem, commit_lem, get_committed_lem,
  }

  -- The offset that an append returns is where a read finds that message, and nothing behind it.
  pub read-append :
      (now : ℕ) (s : State) (t : Bytes) (p : ℤ) (m : Message)
      → Open s
      → IsMessage m
      → m.partition ≡ int32_of p
      → let (r, m', s') = append now s t p m in
        let n = length (C.log s t p) in
        (r ≡ ok (pos n)) × (read s' t p (pos n) (pos 0) ≡ ok (record m' { offset = pos n } ∷ []))
  read-append now s t p m h k e =
      let (open_, appended, _) = append_lem now s t p m h k e in
      let old = C.log s t p in
      (
        appended.result,
        read_lem _ t p (length old) open_
            ∙ ap ok (
                ap (drop (length old)) (simp (same_log_refl t p) at (appended.logs t p))
                ∙ drop_at_length old _
                ∙ ap (λ k. k ∷ []) (sym appended.returned)),
      )

  -- What a group commits is what it gets back.
  pub get_committed-commit :
      (s : State) (g t : Bytes) (p offset : ℤ)
      → Open s
      → IsGroup g
      → IsOffset offset
      → get_committed_offset (commit_offset s g t p offset).1 g t p ≡ (offset, none)
  get_committed-commit s g t p offset h l i =
      let (open_, _, _, commits) = commit_lem s g t p offset h l i in
      get_committed_lem _ g t p open_ l
      ∙ ap (λ o. (o, none)) (simp (same_log_refl t p, bytes_eq_refl g) at (commits g t p l))
