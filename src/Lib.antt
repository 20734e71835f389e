-- ===== src/Lib.antt =====
-- go-pub-sub: a broker that keeps messages in topics and partitions, and deals the partitions of a
-- topic out to the consumers of a group.
--
-- The parts, and how they interact. A storage backend keeps one log for each topic and partition,
-- and the committed offset of each group. The partition manager knows how many partitions a topic
-- has; its `Append` chooses one for a message, takes that partition's mutex and calls the backend.
-- The topic manager keeps the metadata of topics and has the partition manager create their
-- partitions. The group manager keeps the consumers of each group and topic, and which partitions
-- each one reads. The broker's handlers call the managers; `Publish` also offers the stored message
-- to the channels that subscribe to its partition. `Subscribe` sends a client what is stored and then
-- what its channels get; for a member of a group, a goroutine for each partition forwards that to one
-- channel. The producer calls `Publish`; the consumer subscribes for a group and calls `Ack`.
--
-- The modules:
--   Storage            internal/storage/storage.go: `Message`, the interface `LogStorage` as
--                      a record of operations, and a contract: what its comments promise, with
--                      the offsets of a partition counted from 0 without gaps
--   Storage/Memory     internal/storage/memory_store.go: `InMemoryStore`; Keys are `tkey` and
--                      `ckey`, and Backend shows that the store keeps the contract
--   Storage/Redis      internal/storage/redis_store.go: `RedisStore`; Server has the commands and
--                      the JSON codec that it is given, Backend shows that it keeps the contract
--   Storage/Postgres   internal/storage/pg_store.go: `PostgresStore`; Statements has the database
--                      that it is given
--   Partitions         internal/broker/partition_manager.go: `PartitionManager`
--   Partitions/Threads calls of its `Append` at the same time, between the mutex and the commands
--                      that the Redis store sends
--   Topics             internal/broker/topic_manager.go: `TopicManager`
--   Groups             internal/consumer/group_manager.go: `GroupManager`
--   Broker             internal/broker/broker.go: `Broker`, `Publish`, `Ack` and the administration
--   Broker/Channels    the channels that `Subscribe` puts among the subscribers, and takes out
--   Broker/Subscribe   `Subscribe`, with and without a group, in the pieces between which other
--                      calls may come
--   Broker/Reorder     two calls of `Publish` at the same time
--   Broker/Forward     the goroutines of a group's subscription: the forwarders, the central channel,
--                      the loop that sends, and the clean-up that waits
--   Middleware         internal/middleware/interceptors.go: the unary and the stream interceptors,
--                      `ChainUnaryServer` and `ChainStreamServer`; Server has the two chains that
--                      cmd/server/main.go builds
--   Config             internal/config/config.go: `LoadConfig`, and `InitBroker` with the choice
--                      of the backend; and the start of cmd/server/main.go
--   Clients            client/consumer/main.go and client/producer/main.go, on a connection
--   MemberIds          internal/utils/memberId.go: `NewMemberID`
--   Prelude, Text, GoMap, Go, Runs
--                      native numbers, Go's integers, strings, maps and errors, and runs of
--                      goroutines that take turns
--   Tests              the theorems, applied to concrete data
--
-- A Go function `DoThis` is the definition `do_this`, on the state that its receiver holds; it
-- returns the state that it leaves. An error is an `Error` in an `Option` or a `Result`, and a panic
-- is a `Result`.
-- The order in which Go ranges over a map is a parameter, `RangeOrder`, and so are the time that
-- `time.Now()` returns, for the partition manager the backend, and for `Subscribe` the client's
-- stream. Where a method holds one lock from start to end it is one step. `CreateTopic` of the topic
-- manager is two, since it releases its lock in between. An `int` has 64 bits.
--
-- The Redis store is given the commands of a server, with the effects that Redis documents, and the
-- JSON of a message, of which it relies on a message being read back; both are parameters. The
-- Postgres store is given a database with one operation for each statement that it sends, and with
-- transactions, of which a rollback undoes what was done; nothing is asked of a Commit that fails. The clients are given a connection; `Clients/Session` says what one to a broker is.
-- Of a stream's `Send` that fails, `Broker/Forward` takes from gRPC that it ends the stream's context.
-- A subscriber's channel is its buffer, which holds 64 messages, with a number for its address.
--
-- Loops recurse on the number of their rounds or on a list; `decimal`, which is the format %d, takes
-- one more round of fuel than the number it prints, and a number has no more digits than that.
-- The theorems on the round robin hold until its 64-bit counter wraps.
-- The consumer's loop runs for a number of rounds; one more than there are messages is enough.
-- A relation of steps has one constructor for each thing that a goroutine can do next, a `select`
-- one for each case that is ready; the theorems hold for every order of the steps.
--
-- Not modelled: what is only input and output: the loggers, the flags, dialling and gRPC's server; and
-- the generated api.
pub mod Prelude
pub mod Text
pub mod GoMap
pub mod Go
pub mod Runs
pub mod Storage
pub mod Partitions
pub mod Topics
pub mod Groups
pub mod Broker
pub mod Middleware
pub mod Config
pub mod Clients
pub mod MemberIds
pub mod Tests
