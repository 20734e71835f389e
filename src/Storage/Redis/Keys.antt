-- ===== src/Storage/Redis/Keys.antt =====
-- The keys of internal/storage/redis_store.go: one list for each topic and partition, one hash for
-- each group, and none of them shared.
use go_pub_sub.Prelude.{◌≡◌, refl, ◌∙◌, false, [], ◌∷◌, ◌++◌, arith}
use go_pub_sub.Prelude.Int.{ℤ}
use go_pub_sub.Text.{Bytes, codes, bytes_eq}
use go_pub_sub.Storage.{same_log}
use go_pub_sub.Storage.Memory.Keys.{tkey, tkey_eq}
use go_pub_sub.Storage.Redis.{RedisStore, make_list_key, commit_hash_key}

bytes_eq_front : (xs ys zs : Bytes) → bytes_eq (xs ++ ys) (xs ++ zs) ≡ bytes_eq ys zs
unfolding bytes_eq
bytes_eq_front [] ys zs = refl
bytes_eq_front (x ∷ xs) ys zs = ground (arith, bytes_eq_front xs ys zs)

module _ (r : RedisStore) where
  pub list_key_eq :
      (t t' : Bytes) (p p' : ℤ)
      → bytes_eq (make_list_key r t p) (make_list_key r t' p') ≡ same_log t p t' p'
  unfolding make_list_key
  list_key_eq t t' p p' =
      bytes_eq_front r.key_prefix (codes "msg:" ++ tkey t p) (codes "msg:" ++ tkey t' p')
      ∙ bytes_eq_front (codes "msg:") (tkey t p) (tkey t' p')
      ∙ tkey_eq t t' p p'

  pub hash_key_eq :
      (g g' : Bytes) → bytes_eq (commit_hash_key r g) (commit_hash_key r g') ≡ bytes_eq g g'
  unfolding commit_hash_key
  hash_key_eq g g' =
      bytes_eq_front r.key_prefix (codes "commit:" ++ g) (codes "commit:" ++ g')
      ∙ bytes_eq_front (codes "commit:") g g'

  pub list_hash_apart :
      (t g : Bytes) (p : ℤ) → bytes_eq (make_list_key r t p) (commit_hash_key r g) ≡ false
  unfolding make_list_key commit_hash_key bytes_eq
  list_hash_apart t g p =
      bytes_eq_front r.key_prefix (codes "msg:" ++ tkey t p) (codes "commit:" ++ g) ∙ refl

  pub hash_list_apart :
      (t g : Bytes) (p : ℤ) → bytes_eq (commit_hash_key r g) (make_list_key r t p) ≡ false
  unfolding make_list_key commit_hash_key bytes_eq
  hash_list_apart t g p =
      bytes_eq_front r.key_prefix (codes "commit:" ++ g) (codes "msg:" ++ tkey t p) ∙ refl
