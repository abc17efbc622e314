-- ===== src/Dispatcher/Outcomes.antt =====
-- What a run of `dispatch_single_event` of src/worker/dispatcher.rs that returns has done.
use aether_relay.Prelude.{
  ◌=?◌, length, ℕ, ◌+◌, String, ◌≡◌, refl, ap, ◌∙◌, ◌≢◌, ◌⊎◌, inl, inr, Bool, true, false, not,
  Option, none, some, ◌∷◌, arith, eq_iff,
}
use aether_relay.Models.{received, as_str}
use aether_relay.Store.{Outside, World, ◌>>=◌}
use aether_relay.Store.Schema.{event_is, update_status}
use aether_relay.Dispatcher.{
  DispatchResult, Delivery, set_breaker, or_insert, deferred_result, judge, update_breaker,
  requeue_event, fetch, check_breaker, post, report, settle, defer_or_deliver,
  dispatch_single_event,
}
use aether_relay.Store.Runs.{tick, Runs, pure_inv, bind_inv, execute_inv, call_bind}
use aether_relay.Dispatcher.Settling.{IsSettled, settle-IsSettled}
use aether_relay.Breaker.{CircuitBreaker, can_attempt, record_success, record_failure}
use aether_relay.Dispatcher.Fetching.{delivery_of, fetch_inv}

itself : (id : String) → (id =? id) ≡ true
itself id = (eq_iff id id).1 refl

another : (id other : String) → id ≢ other → (id =? other) ≡ false
another id other ne = ground (arith, eq_iff id other, ne)

pub update_breaker_keeps :
    (b : Option CircuitBreaker) (endpoint_id : String) (success : Bool) (now : ℕ) (w : World)
    → update_breaker b endpoint_id success now w
      ≡ record w { breakers = (update_breaker b endpoint_id success now w).breakers }
update_breaker_keeps none endpoint_id success now w = refl
update_breaker_keeps (some b) endpoint_id true now w = refl
update_breaker_keeps (some b) endpoint_id false now w = refl

-- What a breaker is told of a delivery.
abbrev pub told : Bool → CircuitBreaker → ℕ → CircuitBreaker
told true b now = record_success b
told false b now = record_failure b now

update_breaker_self :
    (b : CircuitBreaker) (endpoint_id : String) (success : Bool) (now : ℕ) (w : World)
    → (update_breaker (some b) endpoint_id success now w).breakers endpoint_id
      ≡ some (told success b now)
update_breaker_self b endpoint_id true now w = rw (itself endpoint_id) refl
update_breaker_self b endpoint_id false now w = rw (itself endpoint_id) refl

update_breaker_other :
    (b : Option CircuitBreaker) (endpoint_id other : String) (success : Bool) (now : ℕ) (w : World)
    → other ≢ endpoint_id
    → (update_breaker b endpoint_id success now w).breakers other ≡ w.breakers other
update_breaker_other none endpoint_id other success now w ne = refl
update_breaker_other (some b) endpoint_id other true now w ne =
    rw (another other endpoint_id ne) refl
update_breaker_other (some b) endpoint_id other false now w ne =
    rw (another other endpoint_id ne) refl

module _ (o : Outside) (failure_threshold recovery max_attempts : ℕ) (event_id : String)
    (w w' : World) (r : DispatchResult) where
  -- What the breaker of an endpoint answers, and what it is afterwards.
  abbrev asked : String → Bool × CircuitBreaker
  asked endpoint_id =
      can_attempt (or_insert (w.breakers endpoint_id) failure_threshold recovery)
        (o.instant w.instants)

  -- The circuit was open: nothing was sent and no attempt was recorded or used up, the event is
  -- back in the queue, and the breaker is as its answer leaves it.
  pub record IsDeferred : Type 0 where
    pub delivery : Delivery
    pub due : delivery_of event_id w.db ≡ some delivery
    pub refused : (asked delivery.endpoint_id).0 ≡ false
    pub breaker : w'.breakers delivery.endpoint_id ≡ some (asked delivery.endpoint_id).1
    pub others : (id : String) → id ≢ delivery.endpoint_id → w'.breakers id ≡ w.breakers id
    pub result : r ≡ deferred_result
    pub queued : w'.db ≡ update_status (event_is event_id) (as_str received) w.db
    pub sent : w'.sent ≡ w.sent

  -- The breaker let the event through: its body was sent once, to the target of its endpoint, the result
  -- tells what came back, the event is settled by it with one attempt more, and the breaker is told.
  pub record IsDelivered : Type 0 where
    pub delivery : Delivery
    pub due : delivery_of event_id w.db ≡ some delivery
    pub admitted : (asked delivery.endpoint_id).0 ≡ true
    pub breaker :
        w'.breakers delivery.endpoint_id
        ≡ some (told r.success (asked delivery.endpoint_id).1 (o.instant (w.instants + 1)))
    pub others : (id : String) → id ≢ delivery.endpoint_id → w'.breakers id ≡ w.breakers id
    pub sent : w'.sent ≡ (delivery.target_url, delivery.raw_body) ∷ w.sent
    pub result : r ≡ judge (o.post (length w.sent) delivery.target_url delivery.raw_body)
    pub settled :
        IsSettled o max_attempts event_id delivery.endpoint_id (delivery.attempt_count + 1) r w w'

  module _ (d : Delivery) (due : delivery_of event_id w.db ≡ some d) (c : ℕ) where
    -- The world behind the second step.
    abbrev checked : World
    checked =
        set_breaker d.endpoint_id (asked d.endpoint_id).1
          (record w { calls = c; instants = w.instants + 1 })

    checked_self : checked.breakers d.endpoint_id ≡ some (asked d.endpoint_id).1
    checked_self = rw (itself d.endpoint_id) refl

    checked_others : (id : String) → id ≢ d.endpoint_id → checked.breakers id ≡ w.breakers id
    checked_others id ne = rw (another id d.endpoint_id ne) refl

    defer-IsDeferred :
        (asked d.endpoint_id).0 ≡ false
        → Runs (defer_or_deliver o true max_attempts event_id d) checked r w'
        → IsDeferred
    unfolding ◌>>=◌ requeue_event
    defer-IsDeferred refused h =
        let (_, v, requeued, h₁) = bind_inv (requeue_event o event_id) _ checked w' h in
        let h₂ = call_bind o _ checked v requeued in
        let at_v =
          execute_inv o (update_status (event_is event_id) (as_str received)) (tick checked) h₂ in
        let (is_deferred, at_end) = pure_inv deferred_result r v w' h₁ in
        record {
          delivery = d;
          due = due;
          refused = refused;
          breaker = rw (at_end, at_v) checked_self;
          others = rw (at_end, at_v) checked_others;
          result = is_deferred;
          queued = rw (at_end, at_v) refl;
          sent = rw (at_end, at_v) refl;
        }

    settled-IsDelivered :
        (asked d.endpoint_id).0 ≡ true
        → (u v : World)
        → u ≡ record checked {
          sent = (d.target_url, d.raw_body) ∷ w.sent;
          instants = w.instants + 1 + 1;
          breakers = u.breakers;
        }
        → u.breakers d.endpoint_id
          ≡ some (
              told
                (judge (o.post (length w.sent) d.target_url d.raw_body)).success
                (asked d.endpoint_id).1
                (o.instant (w.instants + 1)))
        → ((id : String) → id ≢ d.endpoint_id → u.breakers id ≡ w.breakers id)
        → IsSettled o max_attempts event_id d.endpoint_id
            (d.attempt_count + 1)
            (judge (o.post (length w.sent) d.target_url d.raw_body))
            u
            v
        → v.sent ≡ u.sent
        → v.breakers ≡ u.breakers
        → r ≡ judge (o.post (length w.sent) d.target_url d.raw_body)
        → w' ≡ v
        → IsDelivered
    settled-IsDelivered admitted u v at_u self others s sent_same breakers_same is_judged at_end =
        record {
          delivery = d;
          due = due;
          admitted = admitted;
          breaker = rw (at_end, is_judged) (ap (λ bs. bs d.endpoint_id) breakers_same ∙ self);
          others = λ id ne. rw at_end (ap (λ bs. bs id) breakers_same ∙ others id ne);
          sent = ap (λ (x : World). x.sent) at_end ∙ sent_same ∙ ap (λ (x : World). x.sent) at_u;
          result = is_judged;
          settled =
              rw (is_judged, at_end)
                (record {
                  events = rw at_u at (s.events);
                  dead_letters = rw at_u at (s.dead_letters);
                  attempts = rw at_u at (s.attempts);
                  endpoints = rw at_u at (s.endpoints);
                });
        }

    deliver-IsDelivered :
        (asked d.endpoint_id).0 ≡ true
        → Runs (defer_or_deliver o false max_attempts event_id d) checked r w'
        → IsDelivered
    unfolding ◌>>=◌ post report
    deliver-IsDelivered admitted h =
        let judged = judge (o.post (length w.sent) d.target_url d.raw_body) in
        let sent = record checked {
          sent = (d.target_url, d.raw_body) ∷ w.sent;
          instants = w.instants + 1 + 1;
        } in
        let now = o.instant (w.instants + 1) in
        let old = checked.breakers d.endpoint_id in
        let u = update_breaker old d.endpoint_id judged.success now sent in
        let at_u = update_breaker_keeps old d.endpoint_id judged.success now sent in
        let (_, v, ran, h₁) =
          bind_inv (settle o max_attempts event_id d.endpoint_id (d.attempt_count + 1) judged) _ u
            w' h in
        let (s, sent_same, breakers_same) =
          settle-IsSettled o max_attempts event_id d.endpoint_id (d.attempt_count + 1) judged u v
            ran in
        let (is_judged, at_end) = pure_inv judged r v w' h₁ in
        let self : u.breakers d.endpoint_id
            ≡ some (told judged.success (asked d.endpoint_id).1 now) =
          ap (λ b. (update_breaker b d.endpoint_id judged.success now sent).breakers d.endpoint_id)
            checked_self
          ∙ update_breaker_self (asked d.endpoint_id).1 d.endpoint_id judged.success now sent in
        let others : (id : String) → id ≢ d.endpoint_id → u.breakers id ≡ w.breakers id = λ id ne.
          update_breaker_other old d.endpoint_id id judged.success now sent ne
          ∙ checked_others id ne in
        settled-IsDelivered admitted u v at_u self others s sent_same breakers_same is_judged at_end

    by_breaker :
        (circuit_open : Bool)
        → not (asked d.endpoint_id).0 ≡ circuit_open
        → Runs (defer_or_deliver o circuit_open max_attempts event_id d) checked r w'
        → IsDeferred ⊎ IsDelivered
    by_breaker true answer h = inl (defer-IsDeferred (ground (arith, answer)) h)
    by_breaker false answer h = inr (deliver-IsDelivered (ground (arith, answer)) h)

  -- A dispatch that returns has asked the breaker of the event's endpoint. If the breaker refuses, nothing is
  -- sent and the event is back in the queue with no attempt counted. If it lets the event through, the body is
  -- sent once, to the endpoint's target; one attempt is recorded; the event is DELIVERED, FAILED with a dead
  -- letter, or RECEIVED by the result and the retry budget; and the breaker is told the result. No other
  -- breaker changes.
  pub dispatch_single_event_lem :
      Runs (dispatch_single_event o failure_threshold recovery max_attempts event_id) w r w'
      → IsDeferred ⊎ IsDelivered
  unfolding ◌>>=◌ dispatch_single_event check_breaker
  dispatch_single_event_lem h =
      let (d, v, fetched, h₁) = bind_inv (fetch o event_id) _ w w' h in
      let (due, at_v) = fetch_inv o event_id w v d fetched in
      by_breaker d due v.calls _ refl (rw at_v at h₁)
