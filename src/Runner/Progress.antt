-- ===== src/Runner/Progress.antt =====
-- No event is left PROCESSING by a pass of src/worker/runner.rs, while the database answers.
use aether_relay.Prelude.{
  ◌=?◌, ℕ, ◌+◌, String, ◌≡◌, refl, sym, ap, ◌∙◌, subst, ◌≢◌, ◌⊎◌, inl, inr, Bool, not, ◌&&◌, Option,
  none, some, ◌∷◌, arith, eq_iff,
}
use aether_relay.Error.{AppError, Result, err, ok}
use aether_relay.Models.{EventStatus, received, processing, as_str, EventRow}
use aether_relay.Store.{Outside, dispatch_attempts, World, continue, ◌>>=◌, store}
use aether_relay.Store.Rows.{Db}
use aether_relay.Store.Tables.{count_where}
use aether_relay.Runner.{
  DispatchLoopConfig, claim_next_event, after_dispatch, dispatch_claimed, run_dispatch_once,
}
use aether_relay.Store.Tables.Laws.{
  count_where-update_kept, count_where-update_left, count_where_mono,
}
use aether_relay.Store.Schema.{
  event_is, with_status, update_status, insert_attempt, replace_dead_letter,
}
use aether_relay.Dispatcher.Settling.{next_status}
use aether_relay.Models.Laws.{as_str-injective}
use aether_relay.Dispatcher.Writes.{WritesKeep, Keeps-dispatch_single_event}
use aether_relay.Store.Atomicity.{call_bind_err, transaction_atomic}
use aether_relay.Dispatcher.{DispatchResult, requeue_event, dispatch_single_event}
use aether_relay.Dispatcher.Outcomes.{IsDeferred, IsDelivered, dispatch_single_event_lem}
use aether_relay.Runner.Claims.{marked, no_claim, some_claim}
use aether_relay.Store.Runs.{Runs}

abbrev pub event_processing : EventRow → Bool
event_processing e = e.status =? as_str processing

-- No event is PROCESSING.
abbrev pub NoneProcessing : Db → Type 0
NoneProcessing d = count_where event_processing d.events ≡ 0

abbrev other_processing : String → EventRow → Bool
other_processing id e = event_processing e && not (event_is id e)

-- No event but the one with this identifier is PROCESSING.
abbrev NoOtherProcessing : String → Db → Type 0
NoOtherProcessing id d = count_where (other_processing id) d.events ≡ 0

update_keeps_others :
    (id s : String) (d : Db)
    → NoOtherProcessing id d
    → NoOtherProcessing id (update_status (event_is id) s d)
unfolding update_status
update_keeps_others id s d h =
    count_where-update_kept (event_is id) (other_processing id) (with_status s) d.events
      (λ x k. ground arith)
    ∙ h

WritesKeep-others : (id : String) → WritesKeep (NoOtherProcessing id) id
unfolding insert_attempt replace_dead_letter
WritesKeep-others id = record {
  on_status = λ st d h. update_keeps_others id (as_str st) d h;
  on_attempt = λ row d _ _ h. h;
  on_dead_letter = λ row d _ _ h. h;
}

-- An update to another status than PROCESSING finishes the event.
update_finishes :
    (id : String) (st : EventStatus) (d : Db)
    → st ≢ processing
    → NoOtherProcessing id d
    → NoneProcessing (update_status (event_is id) (as_str st) d)
unfolding update_status
update_finishes id st d ne h =
    count_where-update_left (event_is id) event_processing (with_status (as_str st)) d.events
      (λ x _.
        ground (arith, eq_iff (as_str st) (as_str processing), as_str-injective st processing, ne))
    ∙ h

claim_keeps_others :
    (id : String) (d : Db)
    → NoneProcessing d
    → NoOtherProcessing id (update_status (event_is id) (as_str processing) d)
claim_keeps_others id d h = update_keeps_others id (as_str processing) d (
    omega (
      arith,
      count_where_mono (other_processing id) event_processing d.events (λ x k. ground arith),
      h,
    ))

next_status-ne-processing :
    (max_attempts n : ℕ) (success : Bool) → next_status max_attempts n success ≢ processing
unfolding next_status
next_status-ne-processing max_attempts n success e = ground arith

-- No database call fails.
abbrev pub IsQuiet : Outside → Type 0
IsQuiet o = (n : ℕ) → o.fault n ≡ none

module _ (o : Outside) where
  pub claim_next_event_atomic :
      (w : World) (e : AppError)
      → (claim_next_event o w).0 ≡ err e
      → (claim_next_event o w).1.db ≡ w.db
  unfolding claim_next_event
  claim_next_event_atomic w e h =
      call_bind_err o _ w e (λ v same k. transaction_atomic o _ v e k ∙ same) h

  requeue_event_quiet :
      (event_id : String) (w : World)
      → IsQuiet o
      → (requeue_event o event_id w).1.db ≡ update_status (event_is event_id) (as_str received) w.db
  unfolding store requeue_event
  requeue_event_quiet event_id w quiet = ground (arith, quiet w.calls, quiet (w.calls + 1))

  module _ (quiet : IsQuiet o) (cfg : DispatchLoopConfig) (event_id endpoint_id : String) where
    -- A dispatch that returns has finished its event.
    returned_finishes :
        (w w' : World) (r : DispatchResult)
        → NoOtherProcessing event_id w.db
        → IsDeferred o cfg.circuit_failure_threshold cfg.circuit_recovery cfg.max_attempts event_id
            w w' r
          ⊎ IsDelivered o cfg.circuit_failure_threshold cfg.circuit_recovery cfg.max_attempts
              event_id w w' r
        → NoneProcessing w'.db
    returned_finishes w w' r h (inl deferred') =
        subst NoneProcessing (sym deferred'.queued)
          (update_finishes event_id received w.db (λ e. cc) h)
    returned_finishes w w' r h (inr delivered') =
        ap (count_where event_processing) delivered'.settled.events
        ∙ unfold update_status in
          update_finishes event_id
            (next_status cfg.max_attempts (delivered'.delivery.attempt_count + 1) r.success) w.db
            (next_status-ne-processing _ _ r.success) h

    after_dispatch_finishes :
        (outcome : Result DispatchResult) (w w' : World)
        → NoOtherProcessing event_id w.db
        → NoOtherProcessing event_id w'.db
        → dispatch_single_event o cfg.circuit_failure_threshold cfg.circuit_recovery
            cfg.max_attempts event_id w
          ≡ (outcome, w')
        → NoneProcessing (after_dispatch o event_id endpoint_id outcome w').1.db
    unfolding after_dispatch ◌>>=◌
    after_dispatch_finishes (ok r) w w' h h' run =
        returned_finishes w w' r h (dispatch_single_event_lem o _ _ _ event_id w w' r run)
    after_dispatch_finishes (err e) w w' h h' run =
        subst NoneProcessing
          (sym (
            requeue_event_quiet event_id
              (record w' { metrics = dispatch_attempts endpoint_id "failure" ∷ w'.metrics }) quiet))
          (update_finishes event_id received w'.db (λ e. cc) h')

-- A failed claim leaves the database as it was.
pub claim_failed_db :
    (o : Outside) (w w' : World) (e : AppError) → claim_next_event o w ≡ (err e, w') → w'.db ≡ w.db
claim_failed_db o w w' e run =
    ap (λ (p : Result (Option (String × String)) × World). p.1.db) (sym run)
    ∙ claim_next_event_atomic o w e
        (ap (λ (p : Result (Option (String × String)) × World). p.0) run)

module _ (o : Outside) (quiet : IsQuiet o) (cfg : DispatchLoopConfig) where
  claimed_finishes :
      (w w' : World) (claimed : Option (String × String))
      → Runs (claim_next_event o) w claimed w'
      → NoneProcessing w.db
      → NoneProcessing (dispatch_claimed o cfg claimed w').1.db
  claimed_finishes w w' none run h = subst NoneProcessing (sym (no_claim o w w' run)) h
  claimed_finishes w w' (some (id, endpoint_id)) run h =
      let (_, _, _, marked) = some_claim o w w' id endpoint_id run in
      let others = subst (NoOtherProcessing id) (sym marked) (claim_keeps_others id w.db h) in
      let dispatch =
        dispatch_single_event o cfg.circuit_failure_threshold cfg.circuit_recovery cfg.max_attempts
          id in
      after_dispatch_finishes o quiet cfg id endpoint_id (dispatch w').0 w' (dispatch w').1 others
        ((Keeps-dispatch_single_event o id (WritesKeep-others id) _ _ _).from w' others) refl

  outcome_finishes :
      (r : Result (Option (String × String))) (w w' : World)
      → claim_next_event o w ≡ (r, w')
      → NoneProcessing w.db
      → NoneProcessing (continue r (dispatch_claimed o cfg) w').1.db
  outcome_finishes (ok claimed) w w' run h = claimed_finishes w w' claimed run h
  outcome_finishes (err e) w w' run h = subst NoneProcessing (sym (claim_failed_db o w w' e run)) h

-- While no database call fails, a pass of the worker leaves no event PROCESSING behind if there was
-- none before, whether it finds an event, delivers it, defers it or meets an error: what it claims is
-- delivered, parked as FAILED, or back in the queue.
pub run_dispatch_once_finishes :
    (o : Outside) (cfg : DispatchLoopConfig) (w : World)
    → IsQuiet o
    → NoneProcessing w.db
    → NoneProcessing (run_dispatch_once o cfg w).1.db
unfolding run_dispatch_once ◌>>=◌
run_dispatch_once_finishes o cfg w quiet h =
    outcome_finishes o quiet cfg (claim_next_event o w).0 w (claim_next_event o w).1 refl h
