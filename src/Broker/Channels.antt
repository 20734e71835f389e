-- ===== src/Broker/Channels.antt =====
-- The channels that `Subscribe` of internal/broker/broker.go puts into `b.subs` and takes out
-- again. A channel is known by the number that stands for its address.
pub mod Phases
pub mod Live
pub mod Registry
use go_pub_sub.Prelude.{ℕ, Option, none, some, List, [], ◌∷◌, ◌++◌, drop, ◌==◌, if◌then◌else◌}
use go_pub_sub.Text.{Bytes}
use go_pub_sub.GoMap.{GoMap, get, put}
use go_pub_sub.Storage.{LogStorage}
use go_pub_sub.Broker.{Broker, Channel}

-- ch := make(chan *api.Message, 64)
abbrev pub new_channel : ℕ → Channel
new_channel id = record { id = id; buffer = [] }

abbrev pub or_nil : Option (List Channel) → List Channel
or_nil none = []
or_nil (some channels) = channels

-- b.subs[key] = append(b.subs[key], ch)
unfoldable pub add_channel : ℕ → Bytes → GoMap (List Channel) → GoMap (List Channel)
add_channel id key subs = put key (or_nil (get key subs) ++ new_channel id ∷ []) subs

-- for i := range arr { if arr[i] == ch { arr = append(arr[:i], arr[i+1:]...); break } }
unfoldable pub without : ℕ → List Channel → List Channel
without id [] = []
without id (ch ∷ channels) =
    let rest = without id channels in if ch.id == id then channels else ch ∷ rest

-- A key that is missing stays so, and a channel that is not in the list leaves the list as it is.
unfoldable pub remove_channel : ℕ → Bytes → GoMap (List Channel) → GoMap (List Channel)
remove_channel id key subs = elim (get key subs) [
  | none ↦ subs
  | some channels ↦ put key (without id channels) subs
]

-- the buffer after `m := <-ch`
abbrev pub shift : Channel → Channel
shift ch = record ch { buffer = drop 1 ch.buffer }

-- m := <-ch on the channel with a number, which waits while the buffer is empty
unfoldable pub take_message : ℕ → List Channel → List Channel
take_message id [] = []
take_message id (ch ∷ channels) =
    let rest = take_message id channels in if ch.id == id then shift ch ∷ channels else ch ∷ rest

module _ (L : LogStorage) where
  unfoldable pub receive : ℕ → Bytes → Broker L → Broker L
  receive id key b = record b {
    subs = elim (get key b.subs) [
      | none ↦ b.subs
      | some channels ↦ put key (take_message id channels) b.subs
    ];
  }

  unfoldable pub register : ℕ → Bytes → Broker L → Broker L
  register id key b = record b { subs = add_channel id key b.subs }

  unfoldable pub unregister : ℕ → Bytes → Broker L → Broker L
  unregister id key b = record b { subs = remove_channel id key b.subs }
