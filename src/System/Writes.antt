-- ===== src/System/Writes.antt =====
-- A rule for invariants of the whole program: what each of its SQL statements keeps, every operation keeps,
-- whatever fails.
use aether_relay.Prelude.{String, ◌≡◌, refl, Bool, Option, none, some}
use aether_relay.Error.{Result, err, ok}
use aether_relay.Models.{
  Bytes, EventStatus, received, processing, as_str, EndpointRecord, EventRow, AttemptRow,
  DeadLetterRow,
}
use aether_relay.Store.{Outside, ◌>>=◌}
use aether_relay.Store.Rows.{Db}
use aether_relay.Idempotency.{accept_unless, accept_event, transition_status}
use aether_relay.Dispatcher.{DispatchResult, requeue_event, dispatch_single_event}
use aether_relay.Dispatcher.Writes.{WritesKeep, Keeps-requeue_event, Keeps-dispatch_single_event}
use aether_relay.Runner.{
  DispatchLoopConfig, mark, claim_next_event, after_dispatch, dispatch_claimed, run_dispatch_once,
}
use aether_relay.Store.Keeps.{
  Keeps, Keeps-bind, Keeps-pure, Keeps-raise, Keeps-call, Keeps-now_secs, Keeps-now_v7,
  Keeps-statement, Keeps-query, Keeps-execute, Keeps-transaction,
}
use aether_relay.Store.Schema.{
  event_is, insert_endpoint_breaks, insert_endpoint, insert_event_breaks, insert_event,
  update_status, insert_attempt_breaks, insert_attempt, delete_attempts, replace_dead_letter_breaks,
  replace_dead_letter, delete_dead_letter, delete_endpoint_rows,
}

-- Every statement of the program that writes keeps `P`; an INSERT may use that it breaks no constraint, and
-- that of an event that it is RECEIVED.
pub record AllWritesKeep (P : Db → Type 0) : Type 0 where
  pub on_status :
      (p : EventRow → Bool) (st : EventStatus) (d : Db) → P d → P (update_status p (as_str st) d)
  pub on_endpoint :
      (row : EndpointRecord) (d : Db)
      → insert_endpoint_breaks row d ≡ none
      → P d
      → P (insert_endpoint row d)
  pub on_event :
      (row : EventRow) (d : Db)
      → row.status ≡ as_str received
      → insert_event_breaks row d ≡ none
      → P d
      → P (insert_event row d)
  pub on_attempt :
      (row : AttemptRow) (d : Db)
      → insert_attempt_breaks row d ≡ none
      → P d
      → P (insert_attempt row d)
  pub on_dead_letter :
      (row : DeadLetterRow) (d : Db)
      → replace_dead_letter_breaks row d ≡ none
      → P d
      → P (replace_dead_letter row d)
  pub on_delete_attempts : (event_id : String) (d : Db) → P d → P (delete_attempts event_id d)
  pub on_delete_dead_letter : (id : String) (d : Db) → P d → P (delete_dead_letter id d)
  pub on_delete_endpoint : (id : String) (d : Db) → P d → P (delete_endpoint_rows id d)

is_received : "RECEIVED" ≡ as_str received
unfolding as_str
is_received = refl

module _ {P : Db → Type 0} (o : Outside)
    (on_event : (row : EventRow) (d : Db)
      → row.status ≡ as_str received
      → insert_event_breaks row d ≡ none
      → P d
      → P (insert_event row d)) where
  Keeps-accept_unless :
      (found : Option EventRow) (endpoint_id key : String) (body : Bytes) (headers : String)
      → Keeps P (accept_unless o found endpoint_id key body headers)
  Keeps-accept_unless (some e) endpoint_id key body headers = Keeps-raise _
  Keeps-accept_unless none endpoint_id key body headers = Keeps-bind _ _ (Keeps-now_v7 o) λ id.
      Keeps-bind _ _ (Keeps-now_secs o) λ now.
        Keeps-bind _ _ (Keeps-statement o _ _ _ (λ d fits h. on_event _ d is_received fits h))
          λ _. Keeps-pure id

  pub Keeps-accept_event :
      (endpoint_id key : String) (body : Bytes) (headers : String)
      → Keeps P (accept_event o endpoint_id key body headers)
  unfolding accept_event
  Keeps-accept_event endpoint_id key body headers = Keeps-transaction o _ (
      Keeps-bind _ _ (Keeps-query o _)
        λ found. Keeps-accept_unless found endpoint_id key body headers)

-- A pass keeps what the marking of an event, its dispatch and its requeueing keep.
module _ {P : Db → Type 0} (o : Outside) (cfg : DispatchLoopConfig)
    (on_mark : (id : String) (d : Db) → P d → P (update_status (event_is id) (as_str processing) d))
    (dispatches : (id : String)
      → Keeps P (
          dispatch_single_event o cfg.circuit_failure_threshold cfg.circuit_recovery
            cfg.max_attempts id))
    (requeues : (id : String) → Keeps P (requeue_event o id)) where
  Keeps-mark : (claimed : Option EventRow) → Keeps P (mark o claimed)
  Keeps-mark none = Keeps-pure tt
  Keeps-mark (some e) = Keeps-execute o _ (on_mark e.id)

  Keeps-claim_next_event : Keeps P (claim_next_event o)
  unfolding claim_next_event
  Keeps-claim_next_event = Keeps-bind _ _ (Keeps-call o) λ _. Keeps-transaction o _ (
      Keeps-bind _ _ (Keeps-query o _)
        λ claimed. Keeps-bind _ _ (Keeps-mark claimed) λ _. Keeps-pure _)

  Keeps-after_dispatch :
      (event_id endpoint_id : String) (outcome : Result DispatchResult)
      → Keeps P (after_dispatch o event_id endpoint_id outcome)
  unfolding after_dispatch ◌>>=◌
  Keeps-after_dispatch event_id endpoint_id (ok r) = record { from = λ w h. h }
  Keeps-after_dispatch event_id endpoint_id (err e) = record {
    from = λ w h. (requeues event_id).from (record w { metrics = _ }) h;
  }

  Keeps-dispatch_claimed :
      (claimed : Option (String × String)) → Keeps P (dispatch_claimed o cfg claimed)
  Keeps-dispatch_claimed none = record { from = λ w h. h }
  Keeps-dispatch_claimed (some (event_id, endpoint_id)) = record {
    from = λ w h.
        (Keeps-after_dispatch event_id endpoint_id _).from _ ((dispatches event_id).from w h);
  }

  pub pass-Keeps : Keeps P (run_dispatch_once o cfg)
  unfolding run_dispatch_once
  pass-Keeps = Keeps-bind _ _ Keeps-claim_next_event Keeps-dispatch_claimed

module _ {P : Db → Type 0} (o : Outside) (k : AllWritesKeep P) where
  writes_of : (event_id : String) → WritesKeep P event_id
  writes_of event_id = record {
    on_status = k.on_status (event_is event_id);
    on_attempt = λ row d _ fits h. k.on_attempt row d fits h;
    on_dead_letter = λ row d _ fits h. k.on_dead_letter row d fits h;
  }

  pub Keeps-transition_status :
      (event_id : String) (from to : EventStatus) → Keeps P (transition_status o event_id from to)
  unfolding transition_status
  Keeps-transition_status event_id from to = Keeps-transaction o _ (
      Keeps-bind _ _ (Keeps-statement o _ _ _ (λ d _ h. k.on_status _ to d h)) λ rows. Keeps-pure _)

  pub Keeps-run_dispatch_once : (cfg : DispatchLoopConfig) → Keeps P (run_dispatch_once o cfg)
  Keeps-run_dispatch_once cfg =
      pass-Keeps o cfg (λ id. k.on_status (event_is id) processing)
        (λ id. Keeps-dispatch_single_event o id (writes_of id) _ _ _)
        (λ id. Keeps-requeue_event o id (writes_of id))
