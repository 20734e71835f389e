-- ===== src/Tests/Groups.antt =====
-- The theorems on internal/consumer/group_manager.go, on a group of two consumers.
use go_pub_sub.Prelude.{ℕ, ◌+◌, ◌≤◌, ◌≡◌, ◌≢◌, refl, ap, ◌∙◌, some, [], ◌∷◌, arith, length}
use mathlib.Core.List.{Mem, reverse, reverse_perm}
use go_pub_sub.Prelude.Int.{pos}
use go_pub_sub.Text.{Bytes, codes, bytes_eq}
use go_pub_sub.GoMap.{RangeOrder, in_order, get, put, get-put, get-put_self}
use go_pub_sub.Groups.{
  GroupManager, new_group_manager, members_of, get_assignment, or_nil, join, leave,
}
use go_pub_sub.Groups.Reached.{Reached, start, joined, Reached-IsSound, one_owner, even_shares}
use go_pub_sub.Groups.Balance.{IsSound}
use go_pub_sub.Groups.Calls.{IsJoined, join-IsJoined, calls_order}
use go_pub_sub.Groups.Stale.{leave_keeps_assignment}
use go_pub_sub.Tests.{orders, billing}

-- four partitions for each topic
abbrev four : Bytes → ℕ
four topic = 4

abbrev first : GroupManager
first = (join in_order new_group_manager billing (codes "ann") orders (pos 4)).1

-- the manager after `ann` and then `bob` joined `billing` on `orders`
abbrev two_consumers : GroupManager
two_consumers = (join in_order first billing (codes "bob") orders (pos 4)).1

reached : Reached in_order four two_consumers
reached = joined billing (codes "bob") orders (joined billing (codes "ann") orders start)

Reached-IsSound_example : IsSound in_order four two_consumers
Reached-IsSound_example = Reached-IsSound in_order four two_consumers reached

start-IsSound : IsSound in_order four new_group_manager
start-IsSound = Reached-IsSound in_order four new_group_manager start

join-IsJoined_example :
    IsJoined in_order new_group_manager billing
      (codes "ann")
      orders
      4
      (join in_order new_group_manager billing (codes "ann") orders (pos 4)).0
      (join in_order new_group_manager billing (codes "ann") orders (pos 4)).1
join-IsJoined_example =
    join-IsJoined in_order new_group_manager billing (codes "ann") orders 4
      (start-IsSound.0 billing orders) refl refl refl (omega arith)

ann-IsJoined :
    IsJoined in_order new_group_manager billing
      (codes "ann")
      orders
      4
      (join in_order new_group_manager billing (codes "ann") orders (pos 4)).0
      first
ann-IsJoined =
    join-IsJoined in_order new_group_manager billing (codes "ann") orders 4
      (start-IsSound.0 billing orders) refl refl refl (omega arith)

first-IsSound : IsSound in_order four first
first-IsSound = Reached-IsSound in_order four first (joined billing (codes "ann") orders start)

bob-IsJoined :
    IsJoined in_order first billing
      (codes "bob")
      orders
      4
      (join in_order first billing (codes "bob") orders (pos 4)).0
      two_consumers
bob-IsJoined =
    join-IsJoined in_order first billing (codes "bob") orders 4 (first-IsSound.0 billing orders)
      refl refl refl (omega arith)

has_bob : get (codes "bob") (members_of two_consumers billing orders) ≡ some tt
unfolding bytes_eq
has_bob =
    ap (get (codes "bob")) (bob-IsJoined.members billing orders)
    ∙ get-put_self (codes "bob") tt (members_of first billing orders)

has_ann : get (codes "ann") (members_of two_consumers billing orders) ≡ some tt
unfolding bytes_eq
has_ann =
    ap (get (codes "ann")) (
      bob-IsJoined.members billing orders
      ∙ ap (put (codes "bob") tt) (ann-IsJoined.members billing orders))
    ∙ get-put (codes "bob") (codes "ann") tt _
    ∙ get-put_self (codes "ann") tt (members_of new_group_manager billing orders)

one_owner_example :
    (id : Bytes) × (get id (members_of two_consumers billing orders) ≡ some tt)
    × Mem (pos 2) (or_nil (get_assignment two_consumers billing id orders))
    × ((other : Bytes)
        → get other (members_of two_consumers billing orders) ≡ some tt
        → Mem (pos 2) (or_nil (get_assignment two_consumers billing other orders))
        → other ≡ id)
one_owner_example =
    one_owner in_order four two_consumers reached billing orders (codes "bob") 2 has_bob
      (omega arith)

even_shares_example :
    length (or_nil (get_assignment two_consumers billing (codes "ann") orders))
    ≤ length (or_nil (get_assignment two_consumers billing (codes "bob") orders)) + 1
even_shares_example =
    even_shares in_order four two_consumers reached billing orders (codes "ann") (codes "bob")
      has_ann has_bob

-- the opposite of the order of insertion
abbrev backwards : RangeOrder
backwards = record { range = λ V m. reverse m; range-perm = λ V m. reverse_perm m }

calls_order_example :
    (join in_order two_consumers billing (codes "eve") orders (pos 4)
      ≡ join backwards two_consumers billing (codes "eve") orders (pos 4))
    × (leave in_order two_consumers billing (codes "eve") orders (pos 4)
        ≡ leave backwards two_consumers billing (codes "eve") orders (pos 4))
calls_order_example =
    calls_order in_order backwards billing orders (pos 4) two_consumers (codes "eve")

abbrev head_code : Bytes → ℕ
head_code [] = 0
head_code (c ∷ s) = c

bob_not_ann : codes "bob" ≢ codes "ann"
bob_not_ann e = omega (arith, ap head_code e)

leave_keeps_assignment_example :
    get_assignment
      (leave in_order two_consumers billing (codes "ann") orders (pos 4))
      billing
      (codes "ann")
      orders
    ≡ get_assignment two_consumers billing (codes "ann") orders
leave_keeps_assignment_example =
    leave_keeps_assignment in_order two_consumers billing orders 4 (codes "ann") (codes "bob")
      ((Reached-IsSound in_order four two_consumers reached).0 billing orders) bob_not_ann has_bob
