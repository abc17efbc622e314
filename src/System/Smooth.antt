-- ===== src/System/Smooth.antt =====
-- A dispatch of src/worker/dispatcher.rs while the database answers, the breaker is closed and the downstream
-- answers with a success: it returns.
pub mod Passes
use aether_relay.Error.{ok}
use aether_relay.Prelude.{
  length, ℕ, ◌+◌, ◌≤◌, ◌<◌, String, ◌≡◌, refl, ap, ◌∙◌, Bool, true, false, not, Option, none, some,
  ◌∷◌, arith,
}
use aether_relay.Models.{Bytes, delivered, as_str, EndpointRecord, EventRow, AttemptRow}
use aether_relay.Store.{Reply, response, send_error, Outside, World, Act, ◌>>=◌, now_secs, now_v7}
use aether_relay.Store.Rows.{Db}
use aether_relay.Store.Tables.{select_where, count_where}
use aether_relay.Store.Schema.{
  endpoint_is, event_is, attempt_is, attempt_of, update_status, insert_attempt_breaks,
  insert_attempt,
}
use aether_relay.Store.Runs.{tick, Runs}
use aether_relay.Breaker.{closed, CircuitBreaker, new, state, can_attempt}
use aether_relay.Dispatcher.{
  DispatchResult, Delivery, one_row, set_breaker, or_insert, judge, update_breaker, attempt_row,
  fetch, check_breaker, post, report, move_on, settle, deliver, dispatch_single_event,
}
use aether_relay.Runner.Progress.{IsQuiet}
use aether_relay.Store.Going.{
  Runs-bind, Runs-execute, Runs-call_bind, Runs-query_bind, Runs-statement_bind,
}
use aether_relay.Dispatcher.Outcomes.{update_breaker_keeps}
use aether_relay.Store.Tables.Laws.{count_where_of_select_some}

-- Every request is answered with a success.
abbrev pub IsAnswering : Outside → Type 0
IsAnswering o =
    (k : ℕ) (url : String) (body : Bytes)
    → (status : ℕ) × ((o.post k url body ≡ response status) × (200 ≤ status) × (status ≤ 299))

-- No breaker is open or half-open.
abbrev pub AllClosed : World → Type 0
AllClosed w = (id : String) (b : CircuitBreaker) → w.breakers id ≡ some b → b.state ≡ closed

judge_well : (status : ℕ) → 200 ≤ status → status ≤ 299 → (judge (response status)).success ≡ true
unfolding judge
judge_well status low high = ground arith

pub answers_win :
    (o : Outside)
    → IsAnswering o
    → (k : ℕ) (url : String) (body : Bytes) → (judge (o.post k url body)).success ≡ true
answers_win o answering k url body =
    let (status, (answered, low, high)) = answering k url body in
    ap (λ reply. (judge reply).success) answered ∙ judge_well status low high

pub judge_deferred : (reply : Reply) → (judge reply).deferred ≡ false
unfolding judge
judge_deferred (response status) = ground arith
judge_deferred (send_error e) = refl

pub closed_admits :
    (b : CircuitBreaker) (now : ℕ) → b.state ≡ closed → can_attempt b now ≡ (true, b)
unfolding can_attempt state
closed_admits b now h = rw h refl

pub or_insert_closed :
    (found : Option CircuitBreaker) (n r : ℕ)
    → ((b : CircuitBreaker) → found ≡ some b → b.state ≡ closed)
    → (or_insert found n r).state ≡ closed
unfolding new
or_insert_closed none n r h = refl
or_insert_closed (some b) n r h = h b refl

one_row-Runs :
    {A : Type 0} (found : Option A) {a : A} (w : World)
    → found ≡ some a
    → Runs (one_row found) w a w
one_row-Runs found w h = ap (λ f. one_row f w) h

Runs-one_row_bind :
    {A B : Type 0} (found : Option A) (f : A → Act B) (w w' : World) {a : A} {b : B}
    → found ≡ some a
    → Runs (f a) w b w'
    → Runs (one_row found >>= f) w b w'
Runs-one_row_bind found f w w' h k = Runs-bind (one_row found) f w w w' (one_row-Runs found w h) k

module _ (o : Outside) (quiet : IsQuiet o) (id : String) where
  due : EventRow → EndpointRecord → Db → Delivery
  due event endpoint d = record {
    target_url = endpoint.target_url;
    raw_body = event.raw_body;
    endpoint_id = event.endpoint_id;
    attempt_count = count_where (attempt_of id) d.attempts;
  }

  fetch-Runs :
      (w : World) (event : EventRow) (endpoint : EndpointRecord)
      → select_where (event_is id) w.db.events ≡ some event
      → select_where (endpoint_is event.endpoint_id) w.db.endpoints ≡ some endpoint
      → Runs (fetch o id) w (due event endpoint w.db) (tick (tick (tick (tick w))))
  unfolding fetch due
  fetch-Runs w event endpoint is_event is_endpoint = Runs-call_bind o _ w _ (quiet _) (
      Runs-query_bind o _ _ (tick w) _ (quiet _) (
        Runs-one_row_bind _ _ (tick (tick w)) _ is_event (
          Runs-query_bind o _ _ (tick (tick w)) _ (quiet _) (
            Runs-one_row_bind _ _ (tick (tick (tick w))) _ is_endpoint
              (Runs-query_bind o _ _ (tick (tick (tick w))) _ (quiet _) refl)))))

  settle-Runs :
      (max_attempts : ℕ) (endpoint_id : String) (n : ℕ) (r : DispatchResult) (w : World)
      → r.success ≡ true
      → insert_attempt_breaks (attempt_row (o.uuid w.uuids) id n r (o.time w.times)) w.db ≡ none
      → (v : World) × Runs (settle o max_attempts id endpoint_id n r) w tt v
        × (v.uuids ≡ w.uuids + 1)
  unfolding settle now_v7 now_secs ◌>>=◌
  settle-Runs max_attempts endpoint_id n r w won fits =
      let row = attempt_row (o.uuid w.uuids) id n r (o.time w.times) in
      let u = record (tick w) { uuids = w.uuids + 1; times = w.times + 1 } in
      let u' = record (tick u) { db = insert_attempt row w.db } in
      let moved : Runs (move_on o max_attempts id endpoint_id n r (o.time w.times)) u' tt
          (record (tick u') { db = update_status (event_is id) (as_str delivered) u'.db }) =
        rw won (Runs-execute o (update_status (event_is id) (as_str delivered)) u' (quiet _)) in
      (
        _,
        Runs-call_bind o _ w _ (quiet _) (
            Runs-statement_bind o (insert_attempt_breaks row) (λ _. tt) (insert_attempt row) _ u _
              (quiet _) fits moved),
        refl,
      )

  attempt_fits :
      (row : AttemptRow) (d : Db)
      → count_where (attempt_is row.id) d.attempts ≡ 0
      → 0 < count_where (event_is row.event_id) d.events
      → insert_attempt_breaks row d ≡ none
  unfolding insert_attempt_breaks
  attempt_fits row d new_id parent = ground arith

  module _ (answering : IsAnswering o) (n r max_attempts : ℕ) where
    deliver-Runs :
        (d : Delivery) (w : World)
        → count_where (attempt_is (o.uuid w.uuids)) w.db.attempts ≡ 0
        → 0 < count_where (event_is id) w.db.events
        → (v : World) × Runs
            (deliver o max_attempts id d)
            w
            (judge (o.post (length w.sent) d.target_url d.raw_body))
            v
          × (v.uuids ≡ w.uuids + 1)
    unfolding post report
    deliver-Runs d w new_id present =
        let judged = judge (o.post (length w.sent) d.target_url d.raw_body) in
        let w₁ = record w { sent = (d.target_url, d.raw_body) ∷ w.sent } in
        let now = o.instant w₁.instants in
        let w₂ = record w₁ { instants = w₁.instants + 1 } in
        let u = update_breaker (w₁.breakers d.endpoint_id) d.endpoint_id judged.success now w₂ in
        let at_u =
          update_breaker_keeps (w₁.breakers d.endpoint_id) d.endpoint_id judged.success now w₂ in
        let row = attempt_row (o.uuid u.uuids) id (d.attempt_count + 1) judged (o.time u.times) in
        let fits =
          attempt_fits row u.db
            (ap (λ (x : World). count_where (attempt_is (o.uuid x.uuids)) x.db.attempts) at_u
              ∙ new_id)
            (omega
              (arith, ap (λ (x : World). count_where (event_is id) x.db.events) at_u, present)) in
        let (v, settled, counted) =
          settle-Runs max_attempts d.endpoint_id (d.attempt_count + 1) judged u
            (answers_win o answering (length w.sent) d.target_url d.raw_body) fits in
        (
          v,
          Runs-bind (post o d) _ w w₁ v refl (
              Runs-bind (report o d.endpoint_id judged.success) _ w₁ u v refl (
                Runs-bind (settle o max_attempts id d.endpoint_id (d.attempt_count + 1) judged) _ u
                  v v settled refl)),
          counted ∙ ap (λ (x : World). x.uuids + 1) at_u,
        )

    check-Runs :
        (endpoint_id : String) (w : World)
        → AllClosed w
        → (v : World) × Runs (check_breaker o n r endpoint_id) w false v
          × (v ≡ record w { instants = v.instants; breakers = v.breakers })
    unfolding check_breaker
    check-Runs endpoint_id w shut =
        let b = or_insert (w.breakers endpoint_id) n r in
        let now = o.instant w.instants in
        let v =
          set_breaker endpoint_id (can_attempt b now).1 (record w { instants = w.instants + 1 }) in
        (
          v,
          ap (λ (p : Bool × CircuitBreaker). (ok (not p.0), v))
              (closed_admits b now
                (or_insert_closed (w.breakers endpoint_id) n r (shut endpoint_id))),
          refl,
        )

    -- The dispatch of an event that is there, with its endpoint.
    pub dispatch-Runs :
        (w : World) (event : EventRow) (endpoint : EndpointRecord)
        → select_where (event_is id) w.db.events ≡ some event
        → select_where (endpoint_is event.endpoint_id) w.db.endpoints ≡ some endpoint
        → count_where (attempt_is (o.uuid w.uuids)) w.db.attempts ≡ 0
        → AllClosed w
        → (v : World) × (result : DispatchResult) × Runs
            (dispatch_single_event o n r max_attempts id)
            w
            result
            v
          × (result.deferred ≡ false)
          × (result.success ≡ true)
          × (v.uuids ≡ w.uuids + 1)
    unfolding dispatch_single_event
    dispatch-Runs w event endpoint is_event is_endpoint new_id shut =
        let w₁ = tick (tick (tick (tick w))) in
        let d = due event endpoint w.db in
        let (w₂, admitted, at_w₂) = check-Runs d.endpoint_id w₁ shut in
        let (v, delivers, counted) =
          deliver-Runs d w₂
            (ap (λ (x : World). count_where (attempt_is (o.uuid x.uuids)) x.db.attempts) at_w₂
              ∙ new_id)
            (omega (
              arith,
              ap (λ (x : World). count_where (event_is id) x.db.events) at_w₂,
              count_where_of_select_some (event_is id) w.db.events event is_event,
            )) in
        (
          v,
          judge (o.post (length w₂.sent) d.target_url d.raw_body),
          Runs-bind (fetch o id) _ w w₁ v (fetch-Runs w event endpoint is_event is_endpoint)
              (Runs-bind (check_breaker o n r d.endpoint_id) _ w₁ w₂ v admitted delivers),
          judge_deferred (o.post (length w₂.sent) d.target_url d.raw_body),
          answers_win o answering (length w₂.sent) d.target_url d.raw_body,
          counted ∙ ap (λ (x : World). x.uuids + 1) at_w₂,
        )
