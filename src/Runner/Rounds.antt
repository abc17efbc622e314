-- ===== src/Runner/Rounds.antt =====
-- A rule for a pass of src/worker/runner.rs: what holds before the pass and over the statements about the
-- event that it takes up holds after it, whatever fails.
use aether_relay.Prelude.{ℕ, zero, suc, String, ◌≡◌, refl, sym, subst, Option, none, some}
use aether_relay.Store.{Outside, World, continue, ◌>>=◌}
use aether_relay.Runner.Claims.{waiting, marked, no_claim, some_claim}
use aether_relay.Runner.{
  DispatchLoopConfig, DispatchOutcome, idle, settled, deferred, Loop, claim_next_event,
  after_dispatch, dispatch_claimed, run_dispatch_once, react, loop_round, run_dispatch_loop,
}
use aether_relay.Store.Runs.{Runs}
use aether_relay.Dispatcher.Writes.{WritesKeep, Keeps-requeue_event, Keeps-dispatch_single_event}
use aether_relay.Models.{processing, as_str, EventRow}
use aether_relay.Dispatcher.{DispatchResult}
use aether_relay.Store.Rows.{Db}
use aether_relay.Store.Schema.{event_is, update_status}
use aether_relay.Store.Keeps.{Keeps}
use aether_relay.Runner.Progress.{claim_failed_db}
use aether_relay.Error.{Result, err, ok}

module _ (o : Outside) (cfg : DispatchLoopConfig) (P : Db → Type 0) (Q : String → Db → Type 0)
    (finally : (id : String) (d : Db) → Q id d → P d) where
  -- `Q` holds once the event is marked, and the writes of its dispatch keep it.
  abbrev pub Begins : World → EventRow → Type 0
  Begins w e =
      WritesKeep (Q e.id) e.id × Q e.id (update_status (event_is e.id) (as_str processing) w.db)

  after_dispatch-Keeps :
      (id endpoint_id : String) (outcome : Result DispatchResult)
      → WritesKeep (Q id) id
      → Keeps (Q id) (after_dispatch o id endpoint_id outcome)
  unfolding after_dispatch ◌>>=◌
  after_dispatch-Keeps id endpoint_id (ok r) writes = record { from = λ w h. h }
  after_dispatch-Keeps id endpoint_id (err e) writes = record {
    from = λ w h. (Keeps-requeue_event o id writes).from (record w { metrics = _ }) h;
  }

  claimed_keeps :
      (w w' : World) (claimed : Option (String × String))
      → Runs (claim_next_event o) w claimed w'
      → ((e : EventRow) → waiting w ≡ some e → Begins w e)
      → P w.db
      → P (dispatch_claimed o cfg claimed w').1.db
  claimed_keeps w w' none run begins h = subst P (sym (no_claim o w w' run)) h
  claimed_keeps w w' (some (id, endpoint_id)) run begins h =
      let (e, waits, is_id, marked) = some_claim o w w' id endpoint_id run in
      let (writes, start) =
        subst (λ i. WritesKeep (Q i) i × Q i (update_status (event_is i) (as_str processing) w.db))
          is_id (begins e waits) in
      let dispatched =
        (Keeps-dispatch_single_event o id writes cfg.circuit_failure_threshold cfg.circuit_recovery
            cfg.max_attempts).from
          w' (subst (Q id) (sym marked) start) in
      finally id _ ((after_dispatch-Keeps id endpoint_id _ writes).from _ dispatched)

  outcome_keeps :
      (r : Result (Option (String × String))) (w w' : World)
      → claim_next_event o w ≡ (r, w')
      → ((e : EventRow) → waiting w ≡ some e → Begins w e)
      → P w.db
      → P (continue r (dispatch_claimed o cfg) w').1.db
  outcome_keeps (ok claimed) w w' run begins h = claimed_keeps w w' claimed run begins h
  outcome_keeps (err e) w w' run begins h = subst P (sym (claim_failed_db o w w' e run)) h

  pub run_dispatch_once_keeps :
      (w : World)
      → ((e : EventRow) → waiting w ≡ some e → Begins w e)
      → P w.db
      → P (run_dispatch_once o cfg w).1.db
  unfolding run_dispatch_once ◌>>=◌
  run_dispatch_once_keeps w begins h =
      outcome_keeps (claim_next_event o w).0 w (claim_next_event o w).1 refl begins h

module _ (o : Outside) (cfg : DispatchLoopConfig) (random : ℕ → ℕ → ℕ → ℕ) where
  react_world :
      (l : Loop) (r : Result DispatchOutcome) (w : World) → (react o random cfg l r w).world ≡ w
  react_world l (ok settled) w = refl
  react_world l (ok idle) w = refl
  react_world l (ok deferred) w = refl
  react_world l (err e) w = refl

  -- A round of the loop is a pass and a pause.
  pub loop_world :
      (rounds : ℕ) (w : World)
      → (run_dispatch_loop o random cfg (suc rounds) w).world
        ≡ (run_dispatch_once o cfg (run_dispatch_loop o random cfg rounds w).world).1
  unfolding run_dispatch_loop loop_round
  loop_world rounds w =
      let l = run_dispatch_loop o random cfg rounds w in
      react_world l (run_dispatch_once o cfg l.world).0 (run_dispatch_once o cfg l.world).1

  -- What a pass keeps, any number of rounds keeps.
  pub rounds_keep :
      (P : Db → Type 0)
      → ((w : World) → P w.db → P (run_dispatch_once o cfg w).1.db)
      → (rounds : ℕ) (w : World) → P w.db
      → P (run_dispatch_loop o random cfg rounds w).world.db
  unfolding run_dispatch_loop
  rounds_keep P pass zero w h = h
  rounds_keep P pass (suc rounds) w h =
      rw (loop_world rounds w)
        (pass (run_dispatch_loop o random cfg rounds w).world (rounds_keep P pass rounds w h))
