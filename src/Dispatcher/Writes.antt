-- ===== src/Dispatcher/Writes.antt =====
-- What src/worker/dispatcher.rs writes, as a rule for invariants: whatever the statements about its
-- event keep, a dispatch keeps, whether it returns or fails.
use aether_relay.Prelude.{
  leb, length, ℕ, ◌+◌, String, ◌≡◌, refl, sym, ap, ◌∙◌, Bool, true, false, Option, none, some, ◌∷◌,
}
use aether_relay.Models.{
  Bytes, EventStatus, received, delivered, failed, as_str, AttemptRow, DeadLetterRow,
}
use aether_relay.Breaker.{CircuitBreaker}
use aether_relay.Store.{Outside, World, Act, continue, ◌>>=◌, execute}
use aether_relay.Store.Rows.{Db}
use aether_relay.Dispatcher.{
  DispatchResult, Delivery, one_row, judge, update_breaker, requeue_event, fetch, check_breaker,
  post, report, park, move_on, settle, deliver, defer_or_deliver, dispatch_single_event,
}
use aether_relay.Error.{Result, err, ok}
use aether_relay.Store.Schema.{
  event_is, attempt_of, update_status, insert_attempt_breaks, insert_attempt,
  replace_dead_letter_breaks, replace_dead_letter,
}
use aether_relay.Store.Tables.{count_where}
use aether_relay.Dispatcher.Fetching.{fetch_inv, attempt_count_of}
use aether_relay.Store.Triples.{
  Leads, Leads-bind, Leads-of_end, Leads-of_Keeps, Leads-of_kept, Keeps-of_end,
}
use aether_relay.Store.Keeps.{
  Keeps, Keeps-bind, Keeps-pure, Keeps-raise, Keeps-call, Keeps-now_secs, Keeps-now_v7,
  Keeps-statement, Keeps-execute, Keeps-branch, keeps_rules,
}

Keeps-one_row : {P : Db → Type 0} {A : Type 0} (found : Option A) → Keeps P (one_row found)
Keeps-one_row none = Keeps-raise _
Keeps-one_row (some a) = Keeps-pure a

update_breaker-db :
    (b : Option CircuitBreaker) (endpoint_id : String) (success : Bool) (now : ℕ) (w : World)
    → (update_breaker b endpoint_id success now w).db ≡ w.db
update_breaker-db none endpoint_id success now w = refl
update_breaker-db (some b) endpoint_id true now w = refl
update_breaker-db (some b) endpoint_id false now w = refl

module _ {P Q R : Db → Type 0} (o : Outside) {B : Type 0} where
  -- What follows a request is about the result that its reply is judged to be.
  Leads-post_bind :
      (d : Delivery) (next : DispatchResult → Act B)
      → ((k : ℕ) → Leads P Q R (next (judge (o.post k d.target_url d.raw_body))))
      → Leads P Q R (post o d >>= next)
  unfolding ◌>>=◌ post
  Leads-post_bind d next leads = record {
    run = λ w h.
        (leads (length w.sent)).run (record w { sent = (d.target_url, d.raw_body) ∷ w.sent }) h;
  }

Keeps-check_breaker :
    {P : Db → Type 0} (o : Outside) (n r : ℕ) (endpoint_id : String)
    → Keeps P (check_breaker o n r endpoint_id)
unfolding check_breaker
Keeps-check_breaker o n r endpoint_id = record { from = λ w h. h }

Keeps-report :
    {P : Db → Type 0} (o : Outside) (endpoint_id : String) (success : Bool)
    → Keeps P (report o endpoint_id success)
unfolding report
Keeps-report o endpoint_id success = record {
  from = λ w h.
      rw (update_breaker-db (w.breakers endpoint_id) endpoint_id success (o.instant w.instants) _)
        h;
}

-- A dispatch keeps what it keeps to requeue its event and to settle it by a reply.
module _ {P : Db → Type 0} (o : Outside) (event_id : String)
    (on_received : (d : Db) → P d → P (update_status (event_is event_id) (as_str received) d)) where
  pub requeue-Keeps : Keeps P (requeue_event o event_id)
  unfolding requeue_event
  requeue-Keeps = Keeps-bind _ _ (Keeps-call o) λ _. Keeps-execute o _ on_received

  Keeps-fetch : Keeps P (fetch o event_id)
  unfolding fetch
  Keeps-fetch = search (keeps_rules, Keeps-one_row) depth 14

  -- The number of an attempt is one more than the attempts that are recorded.
  module _ (max_attempts : ℕ)
      (settles : (endpoint_id : String) (n k : ℕ) (url : String) (body : Bytes) (w : World)
        → n ≡ count_where (attempt_of event_id) w.db.attempts
        → P w.db
        → P
            (settle o max_attempts event_id endpoint_id
              (n + 1)
              (judge (o.post k url body))
              w).1.db) where
    abbrev Counted : ℕ → Db → Type 0
    Counted n d = P d × (n ≡ count_where (attempt_of event_id) d.attempts)

    deliver-Leads :
        (d : Delivery) → Leads (Counted d.attempt_count) P P (deliver o max_attempts event_id d)
    deliver-Leads d = Leads-post_bind o d _ λ k.
        Leads-bind {M = Counted d.attempt_count} _ _
          (Leads-of_kept (λ _ h. h.0) (Keeps-report o d.endpoint_id _))
          λ _.
            Leads-bind {M = P} _ _
              (Leads-of_end
                λ w h. settles d.endpoint_id d.attempt_count k d.target_url d.raw_body w h.1 h.0)
              λ _. Leads-of_Keeps (λ _ h. h) (Keeps-pure _)

    defer_or_deliver-Leads :
        (circuit_open : Bool) (d : Delivery)
        → Leads
            (Counted d.attempt_count)
            P
            P
            (defer_or_deliver o circuit_open max_attempts event_id d)
    defer_or_deliver-Leads true d =
        Leads-of_Keeps (λ _ h. h.0) (Keeps-bind _ _ requeue-Keeps λ _. Keeps-pure _)
    defer_or_deliver-Leads false d = deliver-Leads d

    fetched_ends :
        (n r : ℕ) (fetched : Result Delivery) (w w' : World)
        → fetch o event_id w ≡ (fetched, w')
        → P w.db
        → P w'.db
        → P
            (continue fetched
              (λ d. check_breaker o n r d.endpoint_id >>= λ circuit_open.
                defer_or_deliver o circuit_open max_attempts event_id d)
              w').1.db
    fetched_ends n r (ok d) w w' run h h' =
        let (due, at_w') = fetch_inv o event_id w w' d run in
        let counted = attempt_count_of event_id w.db d due in
        (Keeps-of_end (
            Leads-bind {M = Counted d.attempt_count} _ _
              (Leads-of_kept (λ _ h. h.0) (Keeps-check_breaker o n r d.endpoint_id))
              λ circuit_open. defer_or_deliver-Leads circuit_open d))
          w'
          (
            h',
            counted
                ∙ ap (λ (v : World). count_where (attempt_of event_id) v.db.attempts) (sym at_w'),
          )
    fetched_ends n r (err e) w w' run h h' = h'

    pub dispatch-Keeps : (n r : ℕ) → Keeps P (dispatch_single_event o n r max_attempts event_id)
    unfolding dispatch_single_event ◌>>=◌
    dispatch-Keeps n r = record {
      from = λ w h.
          fetched_ends n r (fetch o event_id w).0 w (fetch o event_id w).1 refl h
            (Keeps-fetch.from w h);
    }

-- The writes of a dispatch of one event keep `P`; the rows that it adds belong to the event.
pub record WritesKeep (P : Db → Type 0) (event_id : String) : Type 0 where
  pub on_status :
      (st : EventStatus) (d : Db) → P d → P (update_status (event_is event_id) (as_str st) d)
  pub on_attempt :
      (row : AttemptRow) (d : Db)
      → row.event_id ≡ event_id
      → insert_attempt_breaks row d ≡ none
      → P d
      → P (insert_attempt row d)
  pub on_dead_letter :
      (row : DeadLetterRow) (d : Db)
      → row.event_id ≡ event_id
      → replace_dead_letter_breaks row d ≡ none
      → P d
      → P (replace_dead_letter row d)

module _ {P : Db → Type 0} (o : Outside) (event_id : String) (writes : WritesKeep P event_id) where
  Keeps-update :
      (st : EventStatus) → Keeps P (execute o (update_status (event_is event_id) (as_str st)))
  Keeps-update st = Keeps-execute o _ (writes.on_status st)

  Keeps-park :
      (endpoint_id : String) (r : DispatchResult) (now : ℕ)
      → Keeps P (park o event_id endpoint_id r now)
  Keeps-park endpoint_id r now = Keeps-bind _ _ (Keeps-update failed) λ _.
      Keeps-bind _ _ (Keeps-now_v7 o)
        λ _. Keeps-statement o _ _ _ (λ d fits h. writes.on_dead_letter _ d refl fits h)

  Keeps-move_on :
      (max_attempts : ℕ) (endpoint_id : String) (n : ℕ) (r : DispatchResult) (now : ℕ)
      → Keeps P (move_on o max_attempts event_id endpoint_id n r now)
  Keeps-move_on max_attempts endpoint_id n r now =
      Keeps-branch r.success _ _ (Keeps-update delivered) (
        Keeps-branch (leb max_attempts n) _ _ (Keeps-park endpoint_id r now)
          (Keeps-update received))

  Keeps-settle :
      (max_attempts : ℕ) (endpoint_id : String) (n : ℕ) (r : DispatchResult)
      → Keeps P (settle o max_attempts event_id endpoint_id n r)
  unfolding settle
  Keeps-settle max_attempts endpoint_id n r = Keeps-bind _ _ (Keeps-call o) λ _.
      Keeps-bind _ _ (Keeps-now_v7 o) λ _. Keeps-bind _ _ (Keeps-now_secs o) λ now.
        Keeps-bind _ _ (Keeps-statement o _ _ _ (λ d fits h. writes.on_attempt _ d refl fits h))
          λ _. Keeps-move_on max_attempts endpoint_id n r now

  pub Keeps-requeue_event : Keeps P (requeue_event o event_id)
  Keeps-requeue_event = requeue-Keeps o event_id (writes.on_status received)

  pub Keeps-dispatch_single_event :
      (n r max_attempts : ℕ) → Keeps P (dispatch_single_event o n r max_attempts event_id)
  Keeps-dispatch_single_event n r max_attempts =
      dispatch-Keeps o event_id (writes.on_status received) max_attempts
        (λ endpoint_id n k url body w _ h.
          (Keeps-settle max_attempts endpoint_id (n + 1) _).from w h)
        n r
