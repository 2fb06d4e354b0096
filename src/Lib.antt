-- ===== src/Lib.antt =====
-- Verification library of stream-analytics: a model of the parts of the Go program that decide
-- which market-data events are kept, in which order they reach a client, and what is dropped.
--
-- The program. Websocket readers put raw messages in a bounded queue
-- (internal/actors/marketdata/runtime); parsed events become envelopes (internal/shared/envelope);
-- the router actor (internal/actors/delivery/runtime/router.go) admits an envelope to its stream
-- by the monotonic sequence policy (internal/shared/ownership), numbers it for the clients, and
-- hands it to the sessions, each of which buffers events in a ring
-- (internal/actors/delivery/runtime/delivery_ring.go).
--
-- Files and the code they model:
--   Base and its children: shared names, Boolean tests, lists, integers, texts, association lists.
--   Ring: delivery_ring.go, `deliveryRing[T]`. `push_back`, `pop_front`, `drop_front`, `at` and
--     `remove_at` are its methods on the array, with the indices taken modulo the capacity.
--     Ring/Index, Ring/Window, Ring/Contents and Ring/Removal relate the array to a list.
--   Market/Queue: internal/actors/marketdata/runtime/backpressure_queue.go, `wsQueue`: `enqueue`,
--     `pop`, `close`. Market/Queue/Spec is its specification on a list.
--   Envelope: internal/shared/envelope/envelope.go, `Validate` and its helpers.
--   Ownership: internal/shared/ownership/monotonic.go, `DecideMonotonic`.
--   Delivery/SeqPolicy: internal/actors/delivery/runtime/seq_policy.go and seq_policy_contract.go.
--   Delivery/Router: router.go, `acceptStreamSeq`, `nextDeliverySeq` and the two evictions.
--   Delivery/Subject: internal/core/delivery/domain/subject.go, `parse_subject`, `string` and the
--     constructors. Delivery/Subject/RoundTrip is about parsing what was printed.
--   Delivery/Subscriptions: router.go, `register`, `unregister`, `subscribe`, `unsubscribe` and
--     `onActorStopped`. Its child Agreement is about the tables agreeing, View about their meaning.
--   Delivery/Routing, Delivery/FanOut: router.go, `handleEnvelope`, with envelope_policy.go.
--   Delivery/RateLimiter: internal/actors/delivery/runtime/rate_limiter.go, `Allow`.
--   Aggregation/Window: internal/core/aggregation/domain/watermark_window.go, `Observe` and what it
--     calls. Aggregation/Window/Open is about the open windows, Oldest about the one that is closed.
--   Aggregation/OrderBook: internal/core/aggregation/domain/btree_orderbook.go, `applyDelta` and what
--     it calls, with orderbook.go and orderbook_policy.go. The B-tree is a parameter. Its children
--     Sides and Levels are about one side, Valid and Apply about the invariants, Refine about the
--     lists of levels, Quantity about the quantity at a price.
--   Ingest/RetryBudget: internal/adapters/jetstream/retry_budget.go, `retryBudgetTracker`.
--   Shared/BoundedMap: internal/shared/ds/boundedmap.go. Its child Valid has the invariant of a bounded
--     map, Bounded the methods in any order, Stored a put followed by a
--     get.
--   Storage/Federation: internal/adapters/storage/federation/merge.go and range_helpers.go. Its child
--     Merge is about `merge_by_window_start`.
--   Hash: internal/shared/hash/hash.go, the 64-bit FNV-1a hashes. Hash/Fnv is the reference.
--   Market/Stream: internal/core/marketdata/domain/instrument_stream.go, `BuildEnvelope`,
--     `recordSeen` and the constructor. Market/Stream/History is the view by accepted events.
--   Delivery/Session: session_drop_policy.go, `enqueueDelivery`, `priorityDrop`, `onDrop`. Its child
--     Flush is `flushOutbound` of session_delivery.go with its batches, Mailbox is `Receive` of
--     session.go. Delivery/Session/Victim, Refine, Schedule, Draining, Moved, Batch and Drain are
--     about the choice of the victim, the queue, the flush messages, a running flush, what it
--     writes, its batches, and emptying the queue.
--
-- Representation. A Go `string` is the list of its characters, a map an association list without
-- repeated keys, a method that mutates its receiver a function that returns the new receiver, an
-- error a code of `Problem`. An actor handles one message at a time, and a mutex makes a method
-- one step, so that concurrency is a sequence of steps. Signed integers are `ℤ`, wrapped to 64
-- bits where the code can overflow; lengths, indices and clock readings are `ℕ`. A float64
-- that is only compared is `Float`, whose finite values are multiples of 2^-1074. Clock readings,
-- the socket and the owner token, a hash of another library, are arguments of the definitions that
-- use them. All loops are
-- structural recursions or carry a number of rounds that is at least the number that the Go loop
-- makes, so no theorem depends on fuel that may be missing. What handling a client's command does to
-- a session's queue is an argument too: a failed write closes the session, a frame that is too large
-- counts as a drop, and nothing else there touches the queue or its flags.
--
-- Not modelled: exchange parsers, message brokers, storage backends, HTTP and websocket servers,
-- configuration, metrics and logging, and generated protobuf code. They are input and output, or are
-- left to later work.

pub mod Base
pub mod Aggregation
pub mod Delivery
pub mod Envelope
pub mod Hash
pub mod Ingest
pub mod Market
pub mod Ownership
pub mod Ring
pub mod Shared
pub mod Storage
