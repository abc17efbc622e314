-- ===== src/Store/Runs.antt =====
-- Successful runs of actions, taken apart into the runs of their parts.
use aether_relay.Prelude.{◌+◌, String, ◌≡◌, refl, ap, ◌≢◌, Option, none, arith}
use aether_relay.Error.{AppError, Result, ok, err}
use aether_relay.Store.{
  Outside, World, Act, continue, ◌>>=◌, pure, call, statement, query, execute, finish, transaction,
}
use aether_relay.Store.Rows.{Db}

-- The world after one more database call that has written nothing.
abbrev pub tick : World → World
tick w = record w { calls = w.calls + 1 }

-- `m` returns `a` and leaves the world `w'`.
abbrev pub Runs : {A : Type 0} → Act A → World → A → World → Type 0
Runs m w a w' = m w ≡ (ok a, w')

pub err-ne-ok : {A : Type 0} (e : AppError) (a : A) → err e ≢ ok a
err-ne-ok e a h = cc

module _ {A : Type 0} where
  pub Runs-of_ok : (m : Act A) (w : World) {a : A} → (m w).0 ≡ ok a → Runs m w a (m w).1
  Runs-of_ok m w h = ap (λ (r : Result A). (r, (m w).1)) h

  -- What an action returns and leaves is determined.
  pub world_of_Runs : (m : Act A) (w w' : World) {a : A} → Runs m w a w' → (m w).1 ≡ w'
  world_of_Runs m w w' h = ap (λ (p : Result A × World). p.1) h

module _ {A : Type 0} where
  pub pure_inv : (a b : A) (w w' : World) → Runs (pure a) w b w' → (b ≡ a) × (w' ≡ w)
  pure_inv a b w w' h = (cc, cc)

module _ {A B : Type 0} where
  continue_inv :
      (r : Result A) (f : A → Act B) (v w' : World) {b : B}
      → continue r f v ≡ (ok b, w')
      → (a : A) × (r ≡ ok a) × Runs (f a) v b w'
  continue_inv (ok a) f v w' h = (a, refl, h)
  continue_inv (err x) f v w' {b} h = absurd (err-ne-ok x b (ap (λ (p : Result B × World). p.0) h))

  -- A chain that returns is a first step that returns and a rest that returns from there.
  pub bind_inv :
      (m : Act A) (f : A → Act B) (w w' : World) {b : B}
      → Runs (m >>= f) w b w'
      → (a : A) × (v : World) × Runs m w a v × Runs (f a) v b w'
  unfolding ◌>>=◌
  bind_inv m f w w' h =
      let (a, e, rest) = continue_inv (m w).0 f (m w).1 w' h in (a, (m w).1, Runs-of_ok m w e, rest)

module _ (o : Outside) where
  pub call_inv :
      (w : World) {w' : World} {a : Unit {0}}
      → Runs (call o) w a w'
      → (o.fault w.calls ≡ none) × (w' ≡ record w { calls = w.calls + 1 })
  unfolding call
  call_inv w h = (ground arith, ground arith)

  pub statement_inv :
      {A : Type 0} (breaks : Db → Option String) (read : Db → A) (write : Db → Db) (w : World)
      {w' : World} {a : A}
      → Runs (statement o breaks read write) w a w'
      → (breaks w.db ≡ none)
        × (a ≡ read w.db)
        × (w' ≡ record w { db = write w.db; calls = w.calls + 1 })
  unfolding ◌>>=◌ statement call
  statement_inv breaks read write w h = (ground arith, ground arith, ground arith)

  pub query_inv :
      {A : Type 0} (read : Db → A) (w : World) {w' : World} {a : A}
      → Runs (query o read) w a w'
      → (a ≡ read w.db) × (w' ≡ record w { calls = w.calls + 1 })
  unfolding query
  query_inv read w h =
      let (_, value, after) = statement_inv (λ _. none) read (λ d. d) w h in (value, after)

  pub execute_inv :
      (write : Db → Db) (w : World) {w' : World} {a : Unit {0}}
      → Runs (execute o write) w a w'
      → w' ≡ record w { db = write w.db; calls = w.calls + 1 }
  unfolding execute
  execute_inv write w h = (statement_inv (λ _. none) (λ _. tt) write w h).2

  finish_inv :
      {A : Type 0} (before : Db) (r : Result A) (w : World) {w' : World} {a : A}
      → finish o before r w ≡ (ok a, w')
      → (r ≡ ok a) × (w' ≡ record w { calls = w.calls + 1 })
  unfolding call
  finish_inv before (ok b) w h = (ground arith, ground arith)
  finish_inv before (err e) w h = (ground arith, ground arith)

  -- A transaction that returns has run its body and written what the body wrote.
  pub transaction_inv :
      {A : Type 0} (body : Act A) (w : World) {w' : World} {a : A}
      → Runs (transaction o body) w a w'
      → (v : World) × Runs body (record w { calls = w.calls + 1 }) a v
        × (w' ≡ record v { calls = v.calls + 1 })
  unfolding transaction
  transaction_inv {A} body w {w'} {a} h =
      let (_, v, begun, rest) =
        bind_inv (call o) (λ _ u. finish o u.db (body u).0 (body u).1) w w' h in
      let (_, at_begin) = call_inv w begun in
      let (returned, at_end) = finish_inv v.db (body v).0 (body v).1 rest in
      ((body v).1, rw (← at_begin) (Runs-of_ok body v returned), at_end)

-- The same for a first step of each kind: what the rest runs from is known.
module _ (o : Outside) {B : Type 0} where
  pub call_bind :
      (f : Unit {0} → Act B) (w w' : World) {b : B}
      → Runs (call o >>= f) w b w'
      → Runs (f tt) (record w { calls = w.calls + 1 }) b w'
  call_bind f w w' h =
      let (_, v, run, rest) = bind_inv (call o) f w w' h in rw (call_inv o w run).1 at rest

  pub query_bind :
      {A : Type 0} (read : Db → A) (f : A → Act B) (w w' : World) {b : B}
      → Runs (query o read >>= f) w b w'
      → Runs (f (read w.db)) (record w { calls = w.calls + 1 }) b w'
  query_bind read f w w' h =
      let (a, v, run, rest) = bind_inv (query o read) f w w' h in
      let (value, after) = query_inv o read w run in rw (value, after) at rest

  pub execute_bind :
      (write : Db → Db) (f : Unit {0} → Act B) (w w' : World) {b : B}
      → Runs (execute o write >>= f) w b w'
      → Runs (f tt) (record w { db = write w.db; calls = w.calls + 1 }) b w'
  execute_bind write f w w' h =
      let (_, v, run, rest) = bind_inv (execute o write) f w w' h in
      rw (execute_inv o write w run) at rest

  pub statement_bind :
      {A : Type 0} (breaks : Db → Option String) (read : Db → A) (write : Db → Db) (f : A → Act B)
      (w w' : World) {b : B}
      → Runs (statement o breaks read write >>= f) w b w'
      → (breaks w.db ≡ none)
        × Runs (f (read w.db)) (record w { db = write w.db; calls = w.calls + 1 }) b w'
  statement_bind breaks read write f w w' h =
      let (a, v, run, rest) = bind_inv (statement o breaks read write) f w w' h in
      let (fits, value, after) = statement_inv o breaks read write w run in
      (fits, rw (value, after) at rest)
