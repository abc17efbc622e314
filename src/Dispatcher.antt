-- ===== src/Dispatcher.antt =====
-- src/worker/dispatcher.rs: one delivery of one event. The five numbered steps of
-- `dispatch_single_event` are functions of their own. A blocking task that panics or is cancelled is
-- left out, and so is a poisoned lock.
pub mod Settling
pub mod Fetching
pub mod Outcomes
pub mod Writes
use aether_relay.Prelude.{
  ltb, leb, ◌=?◌, if◌then◌else◌, length, ℕ, ◌+◌, String, ◌+++◌, Bool, true, false, not, ◌&&◌,
  Option, none, some, ◌∷◌,
}
use aether_relay.Prelude.Text.{decimal}
use aether_relay.Error.{database, ok}
use aether_relay.Models.{Bytes, received, delivered, failed, as_str, AttemptRow, DeadLetterRow}
use aether_relay.Breaker
use aether_relay.Breaker.{CircuitBreaker, can_attempt, record_success, record_failure}
use aether_relay.Store.{
  Reply, response, send_error, Outside, World, Act, pure, raise, call, statement, query, execute,
  now_secs, now_v7, ◌>>=◌, ◌>>◌,
}
use aether_relay.Store.Tables.{select_where, count_where}
use aether_relay.Store.Schema.{
  endpoint_is, event_is, attempt_of, update_status, insert_attempt_breaks, insert_attempt,
  replace_dead_letter_breaks, replace_dead_letter,
}

pub record DispatchResult : Type 0 where
  pub success : Bool
  pub status_code : Option ℕ
  pub error : Option String
  pub deferred : Bool

-- What the first step reads.
pub record Delivery : Type 0 where
  pub target_url : String
  pub raw_body : Bytes
  pub endpoint_id : String
  pub attempt_count : ℕ

-- `query_row` fails where no row fits.
abbrev pub one_row : {A : Type 0} → Option A → Act A
one_row none = raise (database "Query returned no rows")
one_row (some a) = pure a

abbrev pub set_breaker : String → CircuitBreaker → World → World
set_breaker endpoint_id b w = record w {
  breakers = λ id. if id =? endpoint_id then some b else w.breakers id;
}

abbrev pub or_insert : Option CircuitBreaker → ℕ → ℕ → CircuitBreaker
or_insert none failure_threshold recovery = Breaker.new failure_threshold recovery
or_insert (some b) failure_threshold recovery = b

abbrev pub deferred_result : DispatchResult
deferred_result = record {
  success = false;
  status_code = none;
  error = some "Circuit breaker OPEN";
  deferred = true;
}

-- `StatusCode::is_success`
abbrev pub is_success : ℕ → Bool
is_success status = leb 200 status && ltb status 300

-- The triple (success, status_code, error_msg), as a result.
unfoldable pub judge : Reply → DispatchResult
judge (response status) =
    if is_success status
    then record { success = true; status_code = some status; error = none; deferred = false }
    else record {
      success = false;
      status_code = some status;
      error = some ("Downstream HTTP " +++ decimal status);
      deferred = false;
    }
judge (send_error e) = record {
  success = false;
  status_code = none;
  error = some e;
  deferred = false;
}

abbrev pub reason_of : Option String → String
reason_of none = "Max attempts exceeded"
reason_of (some e) = e

abbrev pub update_breaker : Option CircuitBreaker → String → Bool → ℕ → World → World
update_breaker none endpoint_id success now w = w
update_breaker (some b) endpoint_id true now w = set_breaker endpoint_id (record_success b) w
update_breaker (some b) endpoint_id false now w = set_breaker endpoint_id (record_failure b now) w

abbrev pub attempt_row : String → String → ℕ → DispatchResult → ℕ → AttemptRow
attempt_row id event_id attempt_num r now = record {
  id = id;
  event_id = event_id;
  attempt_number = attempt_num;
  response_status = r.status_code;
  response_body = none;
  error_message = r.error;
  created_at = now;
}

abbrev pub dead_letter_row : String → String → String → DispatchResult → ℕ → DeadLetterRow
dead_letter_row id event_id endpoint_id r now = record {
  id = id;
  event_id = event_id;
  endpoint_id = endpoint_id;
  error_reason = reason_of r.error;
  last_attempt_status = r.status_code;
  created_at = now;
}

module _ (o : Outside) where
  unfoldable pub requeue_event : String → Act (Unit {0})
  requeue_event event_id = do
    call o
    execute o (update_status (event_is event_id) (as_str received))

  -- 1. Fetch event and endpoint
  unfoldable pub fetch : String → Act Delivery
  fetch event_id = do
    call o
    found ← query o (λ d. select_where (event_is event_id) d.events)
    event ← one_row found
    target ← query o (λ d. select_where (endpoint_is event.endpoint_id) d.endpoints)
    endpoint ← one_row target
    attempt_count ← query o (λ d. count_where (attempt_of event_id) d.attempts)
    pure (record {
      target_url = endpoint.target_url;
      raw_body = event.raw_body;
      endpoint_id = event.endpoint_id;
      attempt_count = attempt_count;
    })

  -- 2. Check Circuit Breaker
  unfoldable pub check_breaker : ℕ → ℕ → String → Act Bool
  check_breaker failure_threshold recovery endpoint_id w =
      let breaker = or_insert (w.breakers endpoint_id) failure_threshold recovery in
      let (admitted, breaker') = can_attempt breaker (o.instant w.instants) in
      (ok (not admitted), set_breaker endpoint_id breaker' (record w { instants = w.instants + 1 }))

  -- 3. Perform HTTP Dispatch
  unfoldable pub post : Delivery → Act DispatchResult
  post d w = (
    ok (judge (o.post (length w.sent) d.target_url d.raw_body)),
    record w { sent = (d.target_url, d.raw_body) ∷ w.sent },
  )

  -- 4. Update Circuit Breaker
  unfoldable pub report : String → Bool → Act (Unit {0})
  report endpoint_id success w = (
    ok tt,
    update_breaker (w.breakers endpoint_id) endpoint_id success (o.instant w.instants)
        (record w { instants = w.instants + 1 }),
  )

  abbrev pub park : String → String → DispatchResult → ℕ → Act (Unit {0})
  park event_id endpoint_id r now = do
    execute o (update_status (event_is event_id) (as_str failed))
    dlq_id ← now_v7 o
    let row = dead_letter_row dlq_id event_id endpoint_id r now
    statement o (replace_dead_letter_breaks row) (λ _. tt) (replace_dead_letter row)

  abbrev pub move_on : ℕ → String → String → ℕ → DispatchResult → ℕ → Act (Unit {0})
  move_on max_attempts event_id endpoint_id attempt_num r now =
      if r.success
      then execute o (update_status (event_is event_id) (as_str delivered))
      else if leb max_attempts attempt_num
      then park event_id endpoint_id r now
      else execute o (update_status (event_is event_id) (as_str received))

  -- 5. Record attempt and update event status in DB
  unfoldable pub settle : ℕ → String → String → ℕ → DispatchResult → Act (Unit {0})
  settle max_attempts event_id endpoint_id attempt_num r = do
    call o
    attempt_id ← now_v7 o
    now ← now_secs o
    let row = attempt_row attempt_id event_id attempt_num r now
    statement o (insert_attempt_breaks row) (λ _. tt) (insert_attempt row)
    move_on max_attempts event_id endpoint_id attempt_num r now

  abbrev pub deliver : ℕ → String → Delivery → Act DispatchResult
  deliver max_attempts event_id d = do
    let attempt_num = d.attempt_count + 1
    r ← post d
    report d.endpoint_id r.success
    settle max_attempts event_id d.endpoint_id attempt_num r
    pure r

  abbrev pub defer_or_deliver : Bool → ℕ → String → Delivery → Act DispatchResult
  defer_or_deliver true max_attempts event_id d = do requeue_event event_id; pure deferred_result
  defer_or_deliver false max_attempts event_id d = deliver max_attempts event_id d

  unfoldable pub dispatch_single_event : ℕ → ℕ → ℕ → String → Act DispatchResult
  dispatch_single_event failure_threshold recovery max_attempts event_id = do
    d ← fetch event_id
    circuit_open ← check_breaker failure_threshold recovery d.endpoint_id
    defer_or_deliver circuit_open max_attempts event_id d
