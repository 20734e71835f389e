-- ===== src/Tests.antt =====
-- Concrete data, on which the theorems are applied and the definitions run.
pub mod Storage
pub mod Redis
pub mod Postgres
pub mod Partitions
pub mod Threads
pub mod Topics
pub mod Groups
pub mod Broker
pub mod Subscribe
pub mod Forward
pub mod Middleware
pub mod Config
pub mod Clients
use go_pub_sub.Prelude.{ℕ, [], ◌∷◌, false}
use go_pub_sub.Prelude.Int.{ℤ, pos, negsuc}
use go_pub_sub.Text.{Bytes, codes}
use go_pub_sub.Storage.{Message}
use go_pub_sub.Storage.Memory.{InMemoryStore}

abbrev pub orders : Bytes
orders = codes "orders"

abbrev pub billing : Bytes
billing = codes "billing"

abbrev pub message : Message
message = record {
  topic = orders;
  partition = pos 0;
  offset = pos 0;
  key = [];
  value = codes "hello";
  headers = [];
  ts = 0;
}

-- a store with two messages on partition 0 of `orders`
abbrev pub two_messages : InMemoryStore
two_messages = record {
  logs = (codes "orders:0", message ∷ record message { offset = pos 1 } ∷ []) ∷ [];
  commits = [];
  closed = false;
}
