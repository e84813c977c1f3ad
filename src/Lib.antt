-- ===== src/Lib.antt =====
-- A flash-sale shop: stock is taken and orders are placed by several schemes, with Redis, MySQL and
-- Kafka around them. These modules model the Go packages under internal/ that carry this logic, and
-- what cmd/api and cmd/order-service make of them.
--
-- The parts, and how they correspond to the code:
-- - Prelude and Errors: signed integers, lists, the sentinel errors and `errors.Is`. Go's int is an
--   unbounded integer except where the code shifts bits (internal/idgen), which wraps at 64 bits, and
--   where it converts to int32 (internal/adapter).
-- - Stores: what the code relies on of Redis and MySQL, as records of operations and laws. A script is
--   one function, since Redis runs it with nothing in between. A call has a fate: it is answered, it
--   is not made, or it is made and the answer is lost.
-- - Idgen: internal/idgen/snowflake.go. The clock is a list of readings; the busy wait returns nothing
--   if the readings run out.
-- - Order: internal/order. A transaction is a function of the tables that its commit keeps or drops; the
--   first read of PlaceOrderTx is of a snapshot that may be older than the tables. Order/Statements
--   holds the SQL statements that internal/deduct and internal/bucket use as well. Request ids are
--   compared as they stand: ids that differ only in case or accents, which the tables' collation takes
--   for the same, are outside of the model. Naive/Race is about calls of PlaceOrderNaive that all read
--   before any of them writes.
-- - Deduct: internal/deduct. Stock holds the two scripts, PreDeduct the order that takes the stock in
--   Redis first, Optimistic the version test and the conditional update, Lock the lock that expires.
--   The loop of the version test has `max_cas_retries` rounds, as in the code; each round meets tables
--   of its own, which others may have changed.
-- - Bucket: internal/bucket. Probe is the bounded search, Spread the spreading of the stock. The hash
--   of a request id is a parameter; the loop's rounds are the code's bound.
-- - Inventory: internal/inventory/reservation.go and internal/asyncorder/service.go.
-- - Reconcile: internal/reconcile: the ledger and the job that settles it. The answers of the tables
--   and the entries of the scan are given to the loop. A review in Repeat is one call of ReconcileEntry.
-- - Mq: internal/mq: EnqueueOrder, the polls, ProcessWithRetry and the lag of the group; the loop's
--   rounds are the policy's attempts. Redelivery puts ProcessWithRetry around PlaceRecord and the tables,
--   as the consumer of cmd/api does, for a record that is read again and again; nobody else writes the
--   tables between its attempts.
-- - Cache: internal/cache: the product cache. A key holds its value until it is deleted: expiry is
--   not modelled, and the calls that single flight joins are one call.
-- - Overload: internal/overload: the admission door and the breaker as step relations, since other calls
--   come between their steps; the token bucket counts billionths of a token in integers where the
--   code has float64; the shutdown.
-- - Order/Spec: a shop without tables, and the refinement of it by the two ways to place an order that
--   decide in one statement or under a row lock.
-- - Expire: internal/expire. Close is the closing of an unpaid order and the return of its stock, Index
--   the sorted set of due orders, Latency the percentiles, with the arithmetic of float64 as a parameter,
--   Clock the scanner and the clock of the tests. Times are whole milliseconds in Index and nanoseconds
--   in Clock. A worker in Close/Attempts is one closing and, if that returned, one restoring, as the two
--   functions ask for.
-- - Ports, Adapter and Gateway: internal/ports, internal/adapter and internal/gateway. A service is a
--   function of the request and the state; Adapter/Rpc puts it behind a call that may not arrive or not
--   be answered, with failures as the numbers of status codes and quantities cut to 32 bits.
-- - Api: cmd/api/main.go. Gate is the two doors before a handler, with one request in the gate (many
--   of them are in Overload); Consumer is the loop over the records of one poll, Consumer/Loop the
--   rounds around it; Handlers, AsyncLedger and Debug are the handlers under /debug, Settings what the
--   environment and the queries set; Stop is the five steps of the shutdown, over moments in
--   nanoseconds: its wait for the requests inside has a round for each nanosecond before the deadline,
--   and each round takes longer.
-- - OrderService: cmd/order-service/main.go: the faults that it injects, and internal/asyncorder with
--   the message that it produces; End is the end of the process, which cmd/inventory-service shares.
-- - Discovery: internal/discovery/etcd: what the resolver hands to the balancer, and the end of a
--   registration; Text is Go's order on strings. The functions that fill the table of addresses only
--   panic, so what calls them is left out.
-- - Shard: internal/shard: the opening of the pools, and the probe.
-- - Scenarios: stores held in memory, and each theorem at a concrete input.
--
-- Not modelled: the slow query of cmd/api and the wiring of the commands; the functions of
-- internal/shard, internal/canary, internal/interceptor and internal/discovery/etcd whose bodies are
-- not written; the tools for Kafka; generated code; the set-up of clients, servers and metrics; JSON.
pub mod Prelude
pub mod Errors
pub mod Stores
pub mod Idgen
pub mod Overload
pub mod Order
pub mod Deduct
pub mod Bucket
pub mod Inventory
pub mod Reconcile
pub mod Mq
pub mod Cache
pub mod Expire
pub mod Ports
pub mod Adapter
pub mod Gateway
pub mod Api
pub mod OrderService
pub mod Discovery
pub mod Shard
pub mod Scenarios
