-- ===== src/Tests/Storage.antt =====
-- The theorems on internal/storage, on a store with two messages.
use go_pub_sub.Prelude.{◌-◌, ◌^◌, ◌≡◌, refl, none, some, [], ◌∷◌, ◌++◌, arith, length}
use go_pub_sub.Prelude.Int.{pos, negsuc, int32_of}
use go_pub_sub.Text.{codes, bytes_eq}
use go_pub_sub.GoMap.{get}
use go_pub_sub.Text.Decimal.{Lacks, decimal}
use go_pub_sub.Go.{ok, err, panic, store_closed}
use go_pub_sub.Storage.{IsStored}
use go_pub_sub.Storage.Memory.{append, read, commit_offset, get_committed_offset, close}
use go_pub_sub.Storage.Memory.Keys.{tkey}
use go_pub_sub.Storage.Memory.Log.{log, read_outcome}
use go_pub_sub.Storage.Memory.Commits.{commit_collision, closed_refuses}
use go_pub_sub.Storage.Memory.Backend.{memory_read-append}
use go_pub_sub.Tests.{orders, billing, message, two_messages}

pub billing-Lacks : Lacks b':' billing
billing-Lacks = (
  λ e. omega arith,
  (
    λ e. omega arith,
    (
      λ e. omega arith,
      (λ e. omega arith, (λ e. omega arith, (λ e. omega arith, (λ e. omega arith, tt)))),
    ),
  ),
)

-- the groups `a:b` and `a`, on the topics `orders` and `b:orders`
commit_collision_example :
    get_committed_offset
      (commit_offset two_messages (codes "a" ++ b':' ∷ codes "b") orders (pos 0) (pos 1)).1
      (codes "a")
      (codes "b" ++ b':' ∷ orders)
      (pos 0)
    ≡ (pos 1, none)
commit_collision_example =
    commit_collision two_messages (codes "a") (codes "b") orders (pos 0) (pos 1) refl

closed_refuses_example :
    let c = (close two_messages).1 in
    (append 7 c orders (pos 0) message ≡ (err store_closed, message, c))
    × (read c orders (pos 0) (pos 1) (pos 0) ≡ err store_closed)
    × (commit_offset c billing orders (pos 0) (pos 1) ≡ (some store_closed, c))
    × (get_committed_offset c billing orders (pos 0) ≡ (negsuc 0, some store_closed))
    × (close c ≡ (none, c))
closed_refuses_example =
    closed_refuses 7 two_messages billing orders (pos 0) (pos 1) (pos 0) message

read_outcome_example : read two_messages orders (pos 0) (pos 1) (pos (2 ^ 63 - 1)) ≡ panic
unfolding get tkey decimal bytes_eq
read_outcome_example =
    read_outcome two_messages orders (pos 0) (pos 1) (pos (2 ^ 63 - 1)) refl (omega arith)
      (omega arith)

-- to another partition than the message says
memory_read-append_example :
    let (r, m', s') = append 7 two_messages orders (pos 1) message in
    let n = length (log two_messages orders (pos 1)) in
    (r ≡ ok (pos n))
    × IsStored 7 n (record message { partition = int32_of (pos 1) }) m'
    × (read s' orders (pos 1) (pos n) (pos 0) ≡ ok (m' ∷ []))
memory_read-append_example = memory_read-append 7 two_messages orders (pos 1) message refl
