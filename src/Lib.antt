-- ===== src/Lib.antt =====
-- PelicanQ: the queue engine and its replication.
--
-- The program is a message broker. pelicanq-core keeps named queues in a sled database: a queue
-- has a tree of messages that wait, one of messages in flight, and trees of dead letters, of
-- scheduled messages and of deduplication keys. pelicanq-raft replicates the operations of the
-- engine through a log. The server pelicanqd offers them over HTTP, gRPC and MQTT.
--
-- Bytes, Tree, Word: byte strings and the big-endian keys of pelicanq-core/src/queue.rs, trees as
--   ordered lists of entries, and arithmetic on u64 and i64, which wraps.
-- Message, Failure: pelicanq-core/src/message.rs, retention.rs and error.rs.
-- Platform: sled and bincode, as a record of operations and laws, and the size of a delivery in
--   memory, on which `Vec::with_capacity` depends. Platform/Memory meets them.
-- Exec: a method of QueueManager changes the manager, may fail and reads the clock. Each call of
--   sled takes the next of a list of faults, so that every call can fail. Exec/Ensures has the rules
--   by which a method keeps an invariant of the database on every ending.
-- Engine: pelicanq-core/src/queue.rs. Keys has the names of the trees and the keys, Calls what the
--   methods share, Declare, Publish, Consume, Nack, Promote, Recover and Retain the methods, under
--   the names of the source. View is the state of one queue, Sound its invariant: the shape of the
--   keys, and no delivery tag used twice. Effect says what the methods do when no call fails, and
--   Effect/Refine sets `publish` and `consume` beside an abstract queue of messages.
-- Fifo: the struct `Queue` of pelicanq-core/src/queue.rs, a queue in memory.
-- Snapshot: pelicanq-core/src/snapshot.rs, `export_snapshot` and `restore_from_snapshot`.
-- Replica: pelicanq-raft/src/requests.rs and state_machine.rs. `apply_operation` runs an operation
--   of the log on the engine; an error of the engine is part of the response. A batch to consume
--   reserves its room first and panics if a `Vec` cannot have it; a batch to publish reserves less
--   than its messages take already.
-- Store: pelicanq-raft/src/storage.rs. Log has the entries and the metadata, Apply the application
--   of entries and the snapshots. What openraft and serde_json define is a parameter.
-- Server: pelicanqd/src/api.rs and grpc, and `client_write` of pelicanq-raft/src/lib.rs. The state of
--   a server is an AppEngine: one manager, or a cluster, which openraft runs and which is a parameter
--   with a manager of its own. A handler takes the engine and returns a response and the engine.
--   Http has the responses of api.rs and Http/Handlers the routes. Proto has the messages of
--   proto/pelicanq/v1 and their conversions, Rpc the statuses, Rpc/Handlers the methods of
--   queue_service.rs and admin_service.rs, and Rpc/Stream the task of `consume_stream`. Agree, Sound,
--   Follower and Through are on what the interfaces have in common.
-- Mqtt: pelicanqd/src/mqtt/handler.rs. Connection has the state of `handle_connection`,
--   Connection/Packets `handle_client_packet`, Connection/Steps the loop, one event at a time, and the
--   states it reaches. Connection/Invariant and Connection/Settle are on these.
-- Client: sdks/rust/src/client.rs and error.rs; its messages, of types.rs, are in Server/Proto.
-- Start: pelicanqd/src/main.rs and config.rs, the configuration and the choice of the engine.
-- Cluster: pelicanqd/src/cluster_config.rs, the member list in the environment.
-- Tests: the theorems at concrete inputs.
--
-- A panic is an ending of its own, and so is a loop that has not ended. The loop of `consume` has
-- one round of fuel: it goes round again only if the first key of the tree is gone when the
-- transaction runs, and the manager is borrowed alone. All other loops go through a list.
-- A u64 id wraps after 2 ^ 64 messages; the invariant says nothing of tags from then on.
--
-- The theorems are on one queue at a time. Nothing is said of how operations on one queue bear on
-- another: their trees can have the same name, if one queue is named as a tree of the other.
--
-- Not modelled: sockets, listeners and the start of openraft; the parsing of HTTP, protobuf, MQTT and
-- JSON, so that requests and bodies are data; the calls between the nodes; the capacity of channels
-- and the cancellation of a task in the middle of a call; other clients than the Rust one; a shortage
-- of memory. The mutexes of the server make each method one step, and a mutex that a panic has
-- poisoned is not told apart.
mod Base
pub mod Bytes
pub mod Tree
pub mod Word
pub mod Failure
pub mod Message
pub mod Platform
pub mod Exec
pub mod Engine
pub mod Fifo
pub mod Snapshot
pub mod Replica
pub mod Store
pub mod Server
pub mod Mqtt
pub mod Client
pub mod Start
pub mod Cluster
pub mod Tests
