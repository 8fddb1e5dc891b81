-- ===== src/Lib.antt =====
-- The message broker qwer-q, modelled and proved.
--
-- The broker keeps named queues. A client publishes messages over a framed TCP protocol; consumers
-- get them by a channel, acknowledge them, reject them, or let their visibility time run out. A queue
-- can have consumer groups, each of which gets a copy of every message, and a stream queue is a log
-- whose consumers keep offsets. Messages are stored with a binary codec in a key-value database, from
-- which the broker is restored. A cluster applies publishes and acknowledgements as log entries.
--
-- Which file models which part:
--   * Types: internal/types/message.go, the message record.
--   * Protocol/OpCode: internal/protocol/opcodes.go. Protocol/Frame: frame.go, `EncodeFrame`,
--     `WriteFrame` and `DecodeFrame` on a reader that is the list of the bytes to come.
--     Protocol/Payload: client_codec.go and publish_response.go.
--   * Storage/Codec: internal/storage/codec.go, both binary versions.
--   * Broker/Queue with Queue/Consumers, Queue/Acks and Queue/Groups: internal/broker/queue.go. Each
--     operation is a function from the queue to the queue, with `Option` for a panic; one that calls
--     a hook passes the storage's state along. Queue/Delivery has what a delivery keeps, as a step
--     relation; the other modules below Queue are named for what they prove.
--   * Broker/Group with Group/Members and Group/Acks: internal/broker/group.go. There messages are
--     shared by pointer, so a group has a store of messages.
--   * Broker/Dedup: internal/broker/dedup.go, the idempotency keys.
--   * Broker/Stream with Stream/Retention: internal/broker/stream.go, over the interface of
--     internal/storage/storage.go that streams use, a record of operations on a state.
--   * Broker/Registry: internal/broker/broker.go and dlq.go, the queues by name. Broker/Handlers:
--     internal/broker/handlers.go, the requests on queues, as functions on the broker and the storage.
--     Broker/RetryDlq: `RetryDLQ` of dlq.go.
--   * Broker/Recovery: broker.go again, the broker with its stream queues, and
--     `LoadFromStorage`; Recovery/Persisted puts it on the database. Broker/StreamHandlers: the
--     requests of handlers.go on streams.
--     Broker/Call: internal/broker/call.go, the pending calls and their reply channels; Call/Replies
--     and Call/Closing have what becomes of a call.
--   * Storage/Badger with Badger/Streams: internal/storage/badger.go over the key-value database,
--     a parameter with the laws of Badger/Laws. Badger/Scan and Badger/Decimal: iterators and the
--     numbers in keys. Badger/Sweep, Load and Refine: messages against the map they stand for.
--     Badger/Log, Restart, Nested and Offsets: streams and offsets. Badger/Memory: a database in
--     memory, which keeps the laws. Storage/Batcher: internal/storage/batcher.go, as steps.
--   * Cluster/Fsm: internal/cluster/fsm.go, the commands; Fsm/Snapshot: `Snapshot` and `Restore`.
--   * Schema: internal/schema/schema.go, with the parsing of descriptors as a parameter.
--   * Broker/Server: internal/broker/server.go, the frame loop of a connection, the authentication and
--     the switch, over an interface of the handlers.
--   * Broker/Base: the errors, failure policies and hooks that these share. Wire: the varints and
--     big-endian words of Go's encoding/binary. Common: strings and their order, maps, lists, integers.
--
-- Conventions. A Go string or byte slice is a list of numbers below 256; a map is an association
-- list, and a loop over a map takes the order of the visit as an argument. Unsigned integers wrap
-- around as written; times and durations are unbounded. An operation reads the clock once, from an
-- argument, and holds its lock from start to end, so a history is a list of calls. A channel is the
-- list of what it holds, with its capacity in the test for room; a send on a closed channel panics.
--
-- Fuel. The delivery loop of a group takes a message off the list in each round that goes on, so as
-- many rounds as there are messages are enough. `DeleteQueueMessages` takes off 500 entries in each
-- round but the last, so one round for each 500 entries, and one more, are enough. The scan of
-- `RunRetention` takes its rounds as an argument and says when they are used up. The other loops are
-- structural.
--
-- Not modelled: the buffer pools of frame.go, ULIDs, `deliverFromStorage` and the goroutines that
-- call the periodic operations, the opening of the database and its sync loop, the server's sockets
-- and the parts of its handlers that decode requests, metrics, the HTTP API, the Raft node and its
-- replicator, the client, the benchmarks and the command line, which are concurrency, third-party
-- calls or I/O. The database's transactions and iterators, JSON and protobuf are parameters.
pub mod Common
pub mod Wire
pub mod Types
pub mod Protocol
pub mod Storage
pub mod Broker
pub mod Cluster
pub mod Schema
