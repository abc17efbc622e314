-- ===== src/System/Evidence/Kept.antt =====
-- What the operations of src/api, src/core and src/worker keep of an invariant of `System.Evidence`, by what the
-- settling of an event keeps.
use aether_relay.Prelude.{ℕ, ◌+◌, String, ◌≡◌, refl, ◌≢◌, Bool, arith}
use aether_relay.Config.{AppConfig}
use aether_relay.Store.{Outside, World, statement, execute, now_v7, ◌>>=◌}
use aether_relay.Store.Rows.{Db}
use aether_relay.Dispatcher.{DispatchResult, judge, dead_letter_row, settle}
use aether_relay.Api.Dlq.{replay}
use aether_relay.Runner.{from_app_config, run_dispatch_once}
use aether_relay.Models.{Bytes, EventStatus, received, processing, as_str, AttemptRow}
use aether_relay.System.Evidence.{
  in_state, HasEvidence, not_reached, status-HasEvidence, event-HasEvidence,
  delete_attempts-HasEvidence, endpoint-HasEvidence, dead_letter-HasEvidence,
  delete_dead_letter-HasEvidence,
}
use aether_relay.Store.Keeps.{
  Keeps, Keeps-bind, Keeps-pure, Keeps-call, Keeps-now_v7, Keeps-statement, Keeps-query,
  Keeps-execute, Keeps-transaction,
}
use aether_relay.Store.Tables.{count_where}
use aether_relay.Store.Triples.{Keeps-of_Leads, Leads-bind, Leads-execute, Leads-of_Keeps}
use aether_relay.Store.Tables.Laws.{count_where-update_none}
use aether_relay.Dispatcher.Writes.{requeue-Keeps, dispatch-Keeps}
use aether_relay.Store.Schema.{
  event_is, attempt_of, with_status, update_status, replace_dead_letter_breaks, replace_dead_letter,
}
use aether_relay.Idempotency.{transition_status}
use aether_relay.System.Writes.{pass-Keeps}
use aether_relay.System.Operations.{Keeps-lift, OperationsKeep}
use aether_relay.System.Evidence.Cascading.{delete_endpoint-HasEvidence}

module _ (goal : EventStatus) (q : AttemptRow → Bool) (enough : ℕ) (o : Outside) where
  abbrev pub Holds : Db → Type 0
  Holds = HasEvidence goal q enough

  pub update-Keeps :
      (id : String) (st : EventStatus)
      → st ≢ goal
      → Keeps Holds (execute o (update_status (event_is id) (as_str st)))
  update-Keeps id st ne =
      Keeps-execute o _ (λ d h. status-HasEvidence goal q enough (event_is id) st d ne h)

  pub dead_letter-Keeps :
      (id endpoint_id : String) (r : DispatchResult) (now : ℕ)
      → Keeps Holds (do
        dlq_id ← now_v7 o
        let row = dead_letter_row dlq_id id endpoint_id r now
        statement o (replace_dead_letter_breaks row) (λ _. tt) (replace_dead_letter row))
  dead_letter-Keeps id endpoint_id r now = Keeps-bind _ _ (Keeps-now_v7 o) λ dlq_id.
      Keeps-statement o _ _ _ (λ d fits h. dead_letter-HasEvidence goal q enough _ d fits h)

  module _ (cfg : AppConfig) (new : received ≢ goal) (busy : processing ≢ goal)
      (settles : (id endpoint_id : String) (n k : ℕ) (url : String) (body : Bytes) (w : World)
        → n ≡ count_where (attempt_of id) w.db.attempts
        → Holds w.db
        → Holds
            (settle o
              (from_app_config cfg).max_attempts
              id
              endpoint_id
              (n + 1)
              (judge (o.post k url body))
              w).1.db) where
    -- While an event has not the status its attempts may be deleted.
    abbrev Reopened : String → Db → Type 0
    Reopened id d = Holds d × (count_where (in_state goal id) d.events ≡ 0)

    reopen :
        (id : String) (d : Db)
        → Holds d
        → Reopened id (update_status (event_is id) (as_str received) d)
    unfolding update_status
    reopen id d h = (
      unfold update_status in status-HasEvidence goal q enough (event_is id) received d new h,
      count_where-update_none (event_is id) (in_state goal id) (with_status (as_str received))
          d.events (λ x _. not_reached goal q enough id (with_status (as_str received) x) new refl)
          (λ x k. ground arith),
    )

    replays : (dlq_id : String) → Keeps Holds (replay o cfg dlq_id)
    unfolding replay
    replays dlq_id = Keeps-bind _ _ (Keeps-call o) λ _. Keeps-bind _ _ (Keeps-query o _) λ found.
        Keeps-bind _ _ (Keeps-lift _) λ row. Keeps-of_Leads (
          Leads-bind {M = Reopened row.event_id} _ _
            (Leads-execute (λ d h. h) o _ (reopen row.event_id))
            (λ _.
              Leads-bind _ _
                (Leads-execute (λ d h. h.0) o _
                  (λ d h. delete_attempts-HasEvidence goal q enough row.event_id d h.1 h.0))
                (λ _.
                  Leads-of_Keeps (λ d h. h)
                    (Keeps-bind _ _
                      (Keeps-execute o _ (delete_dead_letter-HasEvidence goal q enough dlq_id))
                      λ _. Keeps-pure _))))

    transitions :
        (event_id : String) (from to : EventStatus)
        → to ≢ goal
        → Keeps Holds (transition_status o event_id from to)
    unfolding transition_status
    transitions event_id from to ne = Keeps-transaction o _ (
        Keeps-bind _ _
          (Keeps-statement o _ _ _ (λ d _ h. status-HasEvidence goal q enough _ to d ne h))
          λ rows. Keeps-pure _)

    works : Keeps Holds (run_dispatch_once o (from_app_config cfg))
    works =
        let on_received = λ (id : String) (d : Db) (h : Holds d).
          status-HasEvidence goal q enough (event_is id) received d new h in
        pass-Keeps o (from_app_config cfg)
          (λ id d h. status-HasEvidence goal q enough (event_is id) processing d busy h)
          (λ id.
            dispatch-Keeps o id (on_received id) (from_app_config cfg).max_attempts (settles id) _
              _)
          (λ id. requeue-Keeps o id (on_received id))

    pub HasEvidence-operations : OperationsKeep Holds (λ to. to ≢ goal) o cfg
    HasEvidence-operations = record {
      on_endpoint = endpoint-HasEvidence goal q enough;
      on_event =
          λ row d is_received fits h. event-HasEvidence goal q enough row d new is_received fits h;
      on_delete_endpoint = delete_endpoint-HasEvidence goal q enough;
      replays = replays;
      transitions = transitions;
      works = works;
    }
