-- ===== src/Store.antt =====
-- The database of src/db/migrations.rs as the SQL statements of the program see it, and the world
-- that the program acts on: the outcome of each database call, the clocks, the identifiers and the
-- answers of the downstream services come from outside.
pub mod Rows
pub mod Tables
pub mod Schema
pub mod Runs
pub mod Going
pub mod Keeps
pub mod Triples
pub mod Atomicity
pub mod Still
use aether_relay.Prelude.{ℕ, ◌+◌, String, Option, none, some, List, ◌∷◌}
use aether_relay.Error.{AppError, database, Result, ok, err}
use aether_relay.Models.{Bytes}
use aether_relay.Store.Rows.{Db}
use aether_relay.Breaker.{CircuitBreaker}

-- What `client.post(…).send().await` gives: a response's status, or the text of an error.
pub data Reply : Type 0 where
  response : ℕ → Reply
  send_error : String → Reply

-- What the program does not decide. The n-th database call (a connection from the pool, a statement,
-- a begin or a commit) fails with `fault n`; `time n`, `instant n` and `uuid n` are the n-th reading of
-- the wall clock in seconds, of the monotonic clock in nanoseconds, and of `Uuid::now_v7`; `post n`
-- answers the n-th request that is sent downstream.
pub record Outside : Type 0 where
  pub fault : ℕ → Option String
  pub time : ℕ → ℕ
  pub instant : ℕ → ℕ
  pub uuid : ℕ → String
  pub post : ℕ → String → Bytes → Reply

-- The samples of src/api/middleware/metrics.rs, newest first in `World.metrics`.
pub data Metric : Type 0 where
  ingest_total : String → String → ℕ → Metric
  dispatch_attempts : String → String → Metric
  sqlite_write_errors : Metric
  http_requests : String → String → ℕ → Metric

pub record World : Type 0 where
  pub db : Db
  pub breakers : String → Option CircuitBreaker
  pub metrics : List Metric
  pub sent : List (String × Bytes)
  pub calls : ℕ
  pub times : ℕ
  pub instants : ℕ
  pub uuids : ℕ

-- An action may fail, and what it wrote before it failed stays written.
abbrev pub Act : Type 0 → Type 0
Act A = World → Result A × World

abbrev pub continue : {A B : Type 0} → Result A → (A → Act B) → Act B
continue (ok a) f w = f a w
continue (err e) f w = (err e, w)

infixl 5 ◌>>=◌ ◌>>◌
unfoldable pub ◌>>=◌ : {A B : Type 0} → Act A → (A → Act B) → Act B
◌>>=◌ m f w = let (r, w') = m w in continue r f w'

abbrev pub ◌>>◌ : {B : Type 0} → Act (Unit {0}) → Act B → Act B
m >> k = m >>= λ _. k

abbrev pub pure : {A : Type 0} → A → Act A
pure a w = (ok a, w)

abbrev pub raise : {A : Type 0} → AppError → Act A
raise e w = (err e, w)

abbrev pub lift : {A : Type 0} → Result A → Act A
lift r w = (r, w)

abbrev pub emit : Metric → Act (Unit {0})
emit m w = (ok tt, record w { metrics = m ∷ w.metrics })

-- The end of a transaction, by the outcome of its commit.
abbrev pub committed : {A : Type 0} → Db → A → Result (Unit {0}) → Act A
committed before a (ok _) w = (ok a, w)
committed before a (err e) w = (err e, record w { db = before })

module _ (o : Outside) where
  -- One database call that reads and writes nothing: `pool.get()`, a begin or a commit.
  unfoldable pub call : Act (Unit {0})
  call w = elim (o.fault w.calls) [
    | none ↦ (ok tt, record w { calls = w.calls + 1 })
    | some e ↦ (err (database e), record w { calls = w.calls + 1 })
  ]

  -- A statement that breaks a constraint fails with its text and writes nothing.
  abbrev pub settle_statement : {A : Type 0} → Option String → (Db → A) → (Db → Db) → Act A
  settle_statement none read write w = (ok (read w.db), record w { db = write w.db })
  settle_statement (some e) read write w = (err (database e), w)

  -- One statement: the constraint that it breaks, what it returns, and what it writes.
  unfoldable pub statement : {A : Type 0} → (Db → Option String) → (Db → A) → (Db → Db) → Act A
  statement breaks read write = do call; λ w. settle_statement (breaks w.db) read write w

  unfoldable pub query : {A : Type 0} → (Db → A) → Act A
  query read = statement (λ _. none) read (λ d. d)

  unfoldable pub execute : (Db → Db) → Act (Unit {0})
  execute write = statement (λ _. none) (λ _. tt) write

  abbrev pub finish : {A : Type 0} → Db → Result A → Act A
  finish before (err e) w = (err e, record w { db = before })
  finish before (ok a) w = let (c, w') = call w in committed before a c w'

  -- A transaction whose body ends in a commit if it returns; an error, that of the commit included,
  -- drops the transaction, which rolls the database back.
  unfoldable pub transaction : {A : Type 0} → Act A → Act A
  transaction body = do call; λ w. let (r, w') = body w in finish w.db r w'

  unfoldable pub now_secs : Act ℕ
  now_secs w = (ok (o.time w.times), record w { times = w.times + 1 })

  unfoldable pub now_instant : Act ℕ
  now_instant w = (ok (o.instant w.instants), record w { instants = w.instants + 1 })

  unfoldable pub now_v7 : Act String
  now_v7 w = (ok (o.uuid w.uuids), record w { uuids = w.uuids + 1 })

-- To unfold the database calls and the readings all at once.
unfoldable pub store : Unit {0}
unfolding ◌>>=◌ call statement query execute transaction now_secs now_instant now_v7
store = tt
