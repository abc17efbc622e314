-- ===== src/Store/Going.antt =====
-- Where no database call fails, an action goes on: forward rules, one for each way to build an action.
use aether_relay.Prelude.{◌+◌, String, ◌≡◌, refl, ap, ◌∙◌, Option, none, arith}
use aether_relay.Error.{Result, ok}
use aether_relay.Store.{
  Outside, World, Act, continue, ◌>>=◌, lift, committed, call, statement, query, execute, finish,
  transaction,
}
use aether_relay.Store.Rows.{Db}
use aether_relay.Store.Runs.{tick, Runs}

module _ {A B : Type 0} where
  pub Runs-bind :
      (first : Act A) (next : A → Act B) (w v w' : World) {a : A} {b : B}
      → Runs first w a v
      → Runs (next a) v b w'
      → Runs (first >>= next) w b w'
  unfolding ◌>>=◌
  Runs-bind first next w v w' {a} h k = ap (λ (p : Result A × World). continue p.0 next p.1) h ∙ k

module _ (o : Outside) where
  pub Runs-call : (w : World) → o.fault w.calls ≡ none → Runs (call o) w tt (tick w)
  unfolding call
  Runs-call w fine = rw (fine, call) refl

  pub Runs-statement :
      {A : Type 0} (breaks : Db → Option String) (read : Db → A) (write : Db → Db) (w : World)
      → o.fault w.calls ≡ none
      → breaks w.db ≡ none
      → Runs
          (statement o breaks read write)
          w
          (read w.db)
          (record w { db = write w.db; calls = w.calls + 1 })
  unfolding statement ◌>>=◌ call
  Runs-statement breaks read write w fine fits = ground arith

  pub Runs-query :
      {A : Type 0} (read : Db → A) (w : World)
      → o.fault w.calls ≡ none
      → Runs (query o read) w (read w.db) (tick w)
  unfolding query
  Runs-query read w fine = Runs-statement (λ _. none) read (λ d. d) w fine refl

  pub Runs-execute :
      (write : Db → Db) (w : World)
      → o.fault w.calls ≡ none
      → Runs (execute o write) w tt (record w { db = write w.db; calls = w.calls + 1 })
  unfolding execute
  Runs-execute write w fine = Runs-statement (λ _. none) (λ _. tt) write w fine refl

  committed_runs :
      {A : Type 0} (before : Db) (a : A) (v : World)
      → o.fault v.calls ≡ none
      → finish o before (ok a) v ≡ (ok a, tick v)
  committed_runs before a v fine =
      ap (λ (p : Result (Unit {0}) × World). committed before a p.0 p.1) (Runs-call v fine)

  pub Runs-transaction :
      {A : Type 0} (body : Act A) (w v : World) {a : A}
      → o.fault w.calls ≡ none
      → Runs body (tick w) a v
      → o.fault v.calls ≡ none
      → Runs (transaction o body) w a (tick v)
  unfolding transaction
  Runs-transaction {A} body w v {a} begun h fine =
      Runs-bind (call o) (λ _ u. finish o u.db (body u).0 (body u).1) w (tick w) (tick v)
        (Runs-call w begun)
        (ap (λ (p : Result A × World). finish o w.db p.0 p.1) h ∙ committed_runs w.db a v fine)

-- The same for a first step of each kind.
module _ (o : Outside) {B : Type 0} where
  pub Runs-call_bind :
      (f : Unit {0} → Act B) (w w' : World) {b : B}
      → o.fault w.calls ≡ none
      → Runs (f tt) (tick w) b w'
      → Runs (call o >>= f) w b w'
  Runs-call_bind f w w' fine h = Runs-bind (call o) f w (tick w) w' (Runs-call o w fine) h

  pub Runs-query_bind :
      {A : Type 0} (read : Db → A) (f : A → Act B) (w w' : World) {b : B}
      → o.fault w.calls ≡ none
      → Runs (f (read w.db)) (tick w) b w'
      → Runs (query o read >>= f) w b w'
  Runs-query_bind read f w w' fine h =
      Runs-bind (query o read) f w (tick w) w' (Runs-query o read w fine) h

  pub Runs-statement_bind :
      {A : Type 0} (breaks : Db → Option String) (read : Db → A) (write : Db → Db) (f : A → Act B)
      (w w' : World) {b : B}
      → o.fault w.calls ≡ none
      → breaks w.db ≡ none
      → Runs (f (read w.db)) (record w { db = write w.db; calls = w.calls + 1 }) b w'
      → Runs (statement o breaks read write >>= f) w b w'
  Runs-statement_bind breaks read write f w w' fine fits h =
      Runs-bind (statement o breaks read write) f w
        (record w { db = write w.db; calls = w.calls + 1 }) w'
        (Runs-statement o breaks read write w fine fits) h

  pub Runs-execute_bind :
      (write : Db → Db) (f : Unit {0} → Act B) (w w' : World) {b : B}
      → o.fault w.calls ≡ none
      → Runs (f tt) (record w { db = write w.db; calls = w.calls + 1 }) b w'
      → Runs (execute o write >>= f) w b w'
  Runs-execute_bind write f w w' fine h =
      Runs-bind (execute o write) f w (record w { db = write w.db; calls = w.calls + 1 }) w'
        (Runs-execute o write w fine) h

module _ {A B : Type 0} where
  pub Runs-lift_bind :
      (r : Result A) (f : A → Act B) (w w' : World) {a : A} {b : B}
      → r ≡ ok a
      → Runs (f a) w b w'
      → Runs (lift r >>= f) w b w'
  Runs-lift_bind r f w w' h k = Runs-bind (lift r) f w w w' (ap (λ (r' : Result A). (r', w)) h) k
