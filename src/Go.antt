-- ===== src/Go.antt =====
-- What the components share of Go: the errors that they return, a fallible result, and a call that
-- panics. An error is one constructor for each message that the source formats; `external` is any
-- error that a storage backend outside the program reports.
use go_pub_sub.Prelude.{ℕ}
use go_pub_sub.Prelude.Int.{ℤ}
use go_pub_sub.Text.{Bytes}

pub data Error : Type 0 where
  store_closed : Error
  invalid_publish invalid_subscribe invalid_ack : Error
  unknown_topic no_partitions topic_already_exists : Bytes → Error
  topic_name_required topic_required partitions_not_positive : Error
  partitions_out_of_range : ℤ → ℤ → Error
  invalid_hint invalid_partition : ℤ → Bytes → ℤ → Error
  create_failed : Error → Error
  member_required internal_server_error : Error
  group_required invalid_number : Error
  redis_ping_failed : Error → Error
  external : ℕ → Error

pub data Result {ℓ} (A : Type ℓ) : Type ℓ where
  ok : A → Result A
  err : Error → Result A
  panic : Result A
