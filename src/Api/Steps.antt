-- ===== src/Api/Steps.antt =====
-- Successful runs of the steps that the handlers of src/api are built from.
use aether_relay.Prelude.{ℕ, ◌+◌, String, ◌≡◌, refl}
use aether_relay.Store.{Outside, World, Act, ◌>>=◌, pure, lift, call, query, now_secs, now_v7}
use aether_relay.Store.Runs.{tick, Runs, Runs-of_ok, bind_inv, call_inv, query_inv}
use aether_relay.Error.{Result, err, ok}
use aether_relay.Api.Ingest.{count_error, counted, record_ingest_metrics}
use aether_relay.Store.Rows.{Db}

module _ {A B : Type 0} where
  pub lift_bind :
      (r : Result A) (f : A → Act B) (w w' : World) {b : B}
      → Runs (lift r >>= f) w b w'
      → (a : A) × (r ≡ ok a) × Runs (f a) w b w'
  unfolding ◌>>=◌
  lift_bind (ok a) f w w' h = (a, refl, h)
  lift_bind (err e) f w w' h = cc

module _ {A : Type 0} where
  pub count_error_inv :
      (r : Result A) (w w' : World) {a : A} → Runs (count_error r) w a w' → (r ≡ ok a) × (w' ≡ w)
  count_error_inv (ok b) w w' h = (cc, cc)
  count_error_inv (err e) w w' h = cc

  pub counted_inv : (m : Act A) (w w' : World) {a : A} → Runs (counted m) w a w' → Runs m w a w'
  counted_inv m w w' h =
      let (returned, same) = count_error_inv (m w).0 (m w).1 w' h in
      rw same (Runs-of_ok m w returned)

module _ (o : Outside) where
  pub counted-call_bind :
      {B : Type 0} (f : Unit {0} → Act B) (w w' : World) {b : B}
      → Runs (counted (call o) >>= f) w b w'
      → Runs (f tt) (tick w) b w'
  counted-call_bind f w w' h =
      let (_, v, run, rest) = bind_inv (counted (call o)) f w w' h in
      rw (call_inv o w (counted_inv (call o) w v run)).1 at rest

  pub counted-query_bind :
      {A B : Type 0} (read : Db → A) (f : A → Act B) (w w' : World) {b : B}
      → Runs (counted (query o read) >>= f) w b w'
      → Runs (f (read w.db)) (tick w) b w'
  counted-query_bind read f w w' h =
      let (a, v, run, rest) = bind_inv (counted (query o read)) f w w' h in
      let (value, after) = query_inv o read w (counted_inv (query o read) w v run) in
      rw (value, after) at rest

  pub now_secs_inv :
      (w w' : World) (now : ℕ)
      → Runs (now_secs o) w now w'
      → (now ≡ o.time w.times) × (w' ≡ record w { times = w.times + 1 })
  unfolding now_secs
  now_secs_inv w w' now h = (cc, cc)

  pub now_secs_bind :
      {B : Type 0} (f : ℕ → Act B) (w w' : World) {b : B}
      → Runs (now_secs o >>= f) w b w'
      → Runs (f (o.time w.times)) (record w { times = w.times + 1 }) b w'
  now_secs_bind f w w' h =
      let (now, v, run, rest) = bind_inv (now_secs o) f w w' h in
      let (value, after) = now_secs_inv w v now run in rw (value, after) at rest

-- A counter that goes up writes nothing to the database.
pub emitted-db :
    (endpoint_id : String) (r : Result (String × String)) (w : World)
    → (record_ingest_metrics endpoint_id r w).1.db ≡ w.db
emitted-db endpoint_id (ok (name, event_id)) w = refl
emitted-db endpoint_id (err e) w = refl

module _ (o : Outside) where
  now_v7_inv :
      (w w' : World) (id : String)
      → Runs (now_v7 o) w id w'
      → (id ≡ o.uuid w.uuids) × (w' ≡ record w { uuids = w.uuids + 1 })
  unfolding now_v7
  now_v7_inv w w' id h = (cc, cc)

  pub now_v7_bind :
      {B : Type 0} (f : String → Act B) (w w' : World) {b : B}
      → Runs (now_v7 o >>= f) w b w'
      → Runs (f (o.uuid w.uuids)) (record w { uuids = w.uuids + 1 }) b w'
  now_v7_bind f w w' h =
      let (id, v, run, rest) = bind_inv (now_v7 o) f w w' h in
      let (value, after) = now_v7_inv w v id run in rw (value, after) at rest

pub last_step :
    {A : Type 0} (a b : A) (w w' : World) → Runs (pure a) w b w' → (b ≡ a) × (w'.db ≡ w.db)
last_step a b w w' h = (cc, cc)
