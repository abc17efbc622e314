-- ===== src/Dispatcher/Fetching.antt =====
-- What the first step of `dispatch_single_event` of src/worker/dispatcher.rs reads.
use aether_relay.Prelude.{String, ◌≡◌, refl, ap, Option, none, some, arith}
use aether_relay.Models.{EndpointRecord, EventRow}
use aether_relay.Store.{Outside, World, Act, ◌>>=◌}
use aether_relay.Store.Rows.{Db}
use aether_relay.Store.Tables.{select_where, count_where}
use aether_relay.Store.Schema.{endpoint_is, event_is, attempt_of}
use aether_relay.Dispatcher.{Delivery, one_row, fetch}
use aether_relay.Store.Runs.{tick, Runs, err-ne-ok, call_bind, query_bind}
use aether_relay.Error.{Result, err, ok}

abbrev with_endpoint : String → EventRow → Db → Option EndpointRecord → Option Delivery
with_endpoint event_id event d none = none
with_endpoint event_id event d (some endpoint) = some (record {
  target_url = endpoint.target_url;
  raw_body = event.raw_body;
  endpoint_id = event.endpoint_id;
  attempt_count = count_where (attempt_of event_id) d.attempts;
})

abbrev with_event : String → Db → Option EventRow → Option Delivery
with_event event_id d none = none
with_event event_id d (some event) =
    with_endpoint event_id event d (select_where (endpoint_is event.endpoint_id) d.endpoints)

-- The delivery that an event is due: its body, to the target of its endpoint, after its attempts.
unfoldable pub delivery_of : String → Db → Option Delivery
delivery_of event_id d = with_event event_id d (select_where (event_is event_id) d.events)

result_value : {A : Type 0} → Result A → Option A
result_value (ok a) = some a
result_value (err e) = none

module _ {A B : Type 0} where
  one_row_bind :
      (found : Option A) (f : A → Act B) (w w' : World) {b : B}
      → Runs (one_row found >>= f) w b w'
      → (a : A) × (found ≡ some a) × Runs (f a) w b w'
  unfolding ◌>>=◌
  one_row_bind none f w w' {b} h = absurd (err-ne-ok _ b (ap (λ (p : Result B × World). p.0) h))
  one_row_bind (some a) f w w' h = (a, refl, h)

module _ (o : Outside) (event_id : String) (w w' : World) where
  pub fetch_inv :
      (d : Delivery)
      → Runs (fetch o event_id) w d w'
      → (delivery_of event_id w.db ≡ some d) × (w' ≡ record w { calls = w'.calls })
  unfolding ◌>>=◌ fetch delivery_of result_value
  fetch_inv d h =
      let read_event = λ (d : Db). select_where (event_is event_id) d.events in
      let read_attempts = λ (d : Db). count_where (attempt_of event_id) d.attempts in
      let h₁ = query_bind o read_event _ (tick w) w' (call_bind o _ w w' h) in
      let (event, is_event, h₂) = one_row_bind (read_event w.db) _ (tick (tick w)) w' h₁ in
      let read_endpoint = λ (d : Db). select_where (endpoint_is event.endpoint_id) d.endpoints in
      let h₃ = query_bind o read_endpoint _ (tick (tick w)) w' h₂ in
      let (endpoint, is_endpoint, h₄) =
        one_row_bind (read_endpoint w.db) _ (tick (tick (tick w))) w' h₃ in
      let h₅ = query_bind o read_attempts _ (tick (tick (tick w))) w' h₄ in
      (
        rw (is_event, is_endpoint) (ap (λ (p : Result Delivery × World). result_value p.0) h₅),
        rw (← ap (λ (p : Result Delivery × World). p.1) h₅),
      )

pub attempt_count_of :
    (id : String) (d : Db) (due : Delivery)
    → delivery_of id d ≡ some due
    → due.attempt_count ≡ count_where (attempt_of id) d.attempts
unfolding delivery_of
attempt_count_of id d due h = ground arith
