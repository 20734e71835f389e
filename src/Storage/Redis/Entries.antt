-- ===== src/Storage/Redis/Entries.antt =====
-- The entries of a list that internal/storage/redis_store.go reads, each of them a message.
use go_pub_sub.Prelude.{
  ℕ, zero, suc, ◌+◌, ◌≡◌, refl, ap, ◌∙◌, sym, subst, some, none, List, [], ◌∷◌, ◌++◌, arith, length,
  drop,
}
use go_pub_sub.Prelude.Int.{pos}
use go_pub_sub.Text.{Bytes}
use go_pub_sub.Storage.{Message}
use go_pub_sub.Storage.Redis.{decode_all}
use go_pub_sub.Storage.Redis.Server.{Redis, Codec}

module _ (R : Redis) (J : Codec) where
  -- Every entry is the JSON of a message.
  abbrev pub AllDecode : List Bytes → Type 0
  AllDecode [] = Unit {0}
  AllDecode (raw ∷ raws) = ((m : Message) × (J.unmarshal raw ≡ some m)) × AllDecode raws

  decode_all_cons :
      (i : ℕ) (raw : Bytes) (raws : List Bytes) (m : Message)
      → J.unmarshal raw ≡ some m
      → decode_all R J i (raw ∷ raws) ≡ record m { offset = pos i } ∷ decode_all R J (suc i) raws
  unfolding decode_all
  decode_all_cons i raw raws m e =
      subst
        (λ o.
          elim o [
            | some x ↦ record x { offset = pos i } ∷ decode_all R J (suc i) raws
            | none ↦ decode_all R J (suc i) raws
          ]
          ≡ record m { offset = pos i } ∷ decode_all R J (suc i) raws)
        (sym e) refl

  pub length-decode_all :
      (i : ℕ) (raws : List Bytes) → AllDecode raws → length (decode_all R J i raws) ≡ length raws
  unfolding decode_all
  length-decode_all i [] h = refl
  length-decode_all i (raw ∷ raws) ((m, e), h) =
      ap length (decode_all_cons i raw raws m e)
      ∙ ap (λ n. suc n) (length-decode_all (suc i) raws h)

  pub drop-decode_all :
      (i n : ℕ) (raws : List Bytes)
      → AllDecode raws
      → decode_all R J (i + n) (drop n raws) ≡ drop n (decode_all R J i raws)
  unfolding decode_all
  drop-decode_all i zero raws h = ap (λ j. decode_all R J j raws) (omega arith)
  drop-decode_all i (suc n) [] h = refl
  drop-decode_all i (suc n) (raw ∷ raws) ((m, e), h) =
      ap (λ j. decode_all R J j (drop n raws)) (omega arith)
      ∙ drop-decode_all (suc i) n raws h
      ∙ ap (drop (suc n)) (sym (decode_all_cons i raw raws m e))

  pub decode_all-append :
      (i : ℕ) (raws : List Bytes) (b : Bytes) (m : Message)
      → AllDecode raws
      → J.unmarshal b ≡ some m
      → decode_all R J i (raws ++ b ∷ [])
        ≡ decode_all R J i raws ++ record m { offset = pos (i + length raws) } ∷ []
  unfolding decode_all
  decode_all-append i [] b m h e =
      decode_all_cons i b [] m e ∙ ap (λ j. record m { offset = pos j } ∷ []) (omega arith)
  decode_all-append i (raw ∷ raws) b m ((x, d), h) e =
      decode_all_cons i raw (raws ++ b ∷ []) x d
      ∙ ap (λ ms. record x { offset = pos i } ∷ ms)
          (decode_all-append (suc i) raws b m h e
            ∙ ap (λ j. decode_all R J (suc i) raws ++ record m { offset = pos j } ∷ [])
                (omega arith))
      ∙ ap (λ ms. ms ++ record m { offset = pos (i + length (raw ∷ raws)) } ∷ [])
          (sym (decode_all_cons i raw raws x d))

  pub AllDecode-append :
      (raws : List Bytes) (b : Bytes) (m : Message)
      → AllDecode raws
      → J.unmarshal b ≡ some m
      → AllDecode (raws ++ b ∷ [])
  AllDecode-append [] b m h e = ((m, e), tt)
  AllDecode-append (raw ∷ raws) b m (d, h) e = (d, AllDecode-append raws b m h e)
