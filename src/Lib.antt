-- ===== src/Lib.antt =====
-- AetherRelay: a webhook ingestion and dispatch gateway (src/*.rs of the repository, Rust). Providers post
-- webhooks to the gateway, which stores them as events in SQLite; a background worker claims the events
-- one by one and posts each to the target of its endpoint, with retries, a circuit breaker for each
-- endpoint and a dead letter queue.
--
-- The parts, and the files that model them:
--
-- - Breaker: src/worker/circuit_breaker.rs. `CircuitBreaker` and its methods `new`, `state`, `can_attempt`,
--   `record_success`, `record_failure`; a method that reads the clock takes the reading. The failure
--   counter is a u32 that wraps, as in the release build.
-- - Backoff: src/worker/backoff.rs. `decorrelated_jitter`; the random draw is a parameter with the range
--   that `random_range` documents, `Duration`s are nanoseconds, and the u64 saturates as in the source.
-- - Error: src/error.rs. `AppError`, `status_code` and `into_response`.
-- - Models: src/db/models.rs and the rows of src/db/migrations.rs.
-- - Store: the database. `Store.Rows` is its tables, `Store.Schema` the SQL statements of the program with
--   the constraints that an INSERT can break, `Store.Tables` WHERE, COUNT and ORDER BY … LIMIT over lists
--   of rows. `Store` has the world on which the program acts and the monad `Act` of its actions: an action
--   returns or fails with an `AppError`, and what it wrote stays written unless a transaction rolls it
--   back. `Outside` decides what the program cannot: which database call fails, the clocks, the
--   identifiers and the answers of downstream services.
-- - Idempotency: src/core/idempotency.rs. `accept_event` and `transition_status`.
-- - Dispatcher: src/worker/dispatcher.rs. `dispatch_single_event` by its five steps, and `requeue_event`.
-- - Runner: src/worker/runner.rs. `claim_next_event`, `run_dispatch_once` and the loop. `Runner.Budget` measures
--   the queue by the attempts that its events have left.
-- - Config: src/config.rs, the typed configuration.
-- - Crypto: src/crypto. `Crypto.Signature` has `Provider` and `verify_signature`, `Crypto.Stripe` the scheme
--   of src/crypto/stripe.rs and `Crypto.Schemes` the four others. `Crypto.Crates` is what they take from the
--   hash, hex, JSON and signature crates, and `Crypto.Headers` a header map as `get` and `to_str` read it.
-- - Api: src/api. `Api.Auth` is src/api/middleware/auth.rs, `Api.Ingest` src/api/ingest.rs, `Api.Dlq`
--   src/api/dlq.rs, and `Api.Target` and `Api.Endpoints` are the validation and the handlers of
--   src/api/endpoints.rs. The parsers of URLs and of IP addresses and the printer of JSON are parameters.
--   `Api.Router` is src/api/mod.rs: what a request to a route does, `Api.Metrics` the middleware and the
--   endpoint of src/api/middleware/metrics.rs, `Api.Health` src/api/health.rs and `Api.Http` the responses.
--   Which route a request reaches and what an extractor takes or rejects are axum's, and parameters.
-- - Startup: src/db/mod.rs and `run_migrations` of src/db/migrations.rs. `create_pool`, the migrations and the
--   file permissions, as steps on a disk of schema objects, a version and files with their modes.
-- - Main: src/main.rs. The start of the process in its order, with what can fail on the way.
-- - System: the operations together, as src/api/mod.rs and the worker offer them. Each is one step, and steps
--   follow one another in any order. `System.Interleaving` takes an operation apart into its SQL statements,
--   so that those of several may interleave, `System.Evidence` ties the status of an event to its attempts,
--   `System.Serving` joins the routes to the operations, `System.Turns` lets requests and passes of the worker
--   come in any order, `System.Smooth` is the run in which nothing is put off or fails, and `System.Settled` and
--   `System.Answering` join the ingestion to the worker. `World`, `Act` and the sequences of operations are
--   the development's own, and stand for no single function of the source.
--
-- The worker calls the dispatcher, the dispatcher and the API act on one database, and a breaker of an
-- endpoint is asked before each delivery and told of its outcome. The ingestion handler
-- checks a request, its signature by the schemes, before it hands it to the idempotency engine. The
-- handlers are sequences of database calls in the order of the source; each call can fail.
-- `run_dispatch_loop` never ends in the source: it is the state after any number of rounds, and a theorem
-- that wants many says how many: more than the attempts that the queue has left. `decimal` takes as many
-- rounds as the number it prints and one more, and each divides by ten.
--
-- Not modelled: tasks that panic or are cancelled, poisoned locks, logging, the HTTP server and client
-- libraries, the matching of paths, the latency histogram, the gauges that nothing sets, SQLite itself
-- below its statements, the reading of the configuration, and the tasks that run the server and the
-- worker.
pub mod Prelude
pub mod Error
pub mod Api
pub mod Breaker
pub mod Models
pub mod Store
pub mod Idempotency
pub mod Backoff
pub mod Config
pub mod Crypto
pub mod Dispatcher
pub mod Runner
pub mod Startup
pub mod System
pub mod Main
mod Tests
