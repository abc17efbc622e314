-- ===== src/Runner/Budget/Passes.antt =====
-- A pass of src/worker/runner.rs never raises what the queue has left, and lowers it by each delivery.
use aether_relay.Prelude.{
  Bool-cases, ℕ, ◌+◌, ◌*◌, ◌≤◌, ◌<◌, String, ◌≡◌, refl, ap, ◌≢◌, inl, inr, false, ◌&&◌, Option,
  none, some, arith, eq_iff,
}
use aether_relay.Dispatcher.{DispatchResult, attempt_row, dispatch_single_event}
use aether_relay.Runner.Budget.Spending.{
  at_work-update, writes_spend, at_work-claimed, event_spends,
}
use aether_relay.Store.Tables.{count_where}
use aether_relay.Dispatcher.Settling.{next_status, IsSettled}
use aether_relay.Store.{Outside, World, ◌>>=◌}
use aether_relay.Store.Schema.{event_is, attempt_of, update_status, insert_attempt}
use aether_relay.Store.Rows.{Db}
use aether_relay.Runner.Budget.{
  attempts_left, left_of, budget, open_is, budget_at_work, budget_split, budget-le-at_work,
  budget_of_others-update, count-update, budget_of_others-insert-le,
}
use aether_relay.Models.{processing, as_str, EventRow}
use aether_relay.Store.Tables.Laws.{
  count_where-insert, count_where_mono, first_where_counted, first_where-none_iff,
}
use aether_relay.System.Sound.{IsSound}
use aether_relay.Store.Runs.{Runs, Runs-of_ok, bind_inv}
use aether_relay.Runner.Rounds.{run_dispatch_once_keeps}
use aether_relay.Runner.{
  DispatchLoopConfig, idle, settled, comes_first, event_received, claim_next_event, after_dispatch,
  dispatch_claimed, run_dispatch_once,
}
use aether_relay.Dispatcher.Outcomes.{dispatch_single_event_lem}
use aether_relay.Dispatcher.Fetching.{attempt_count_of}
use aether_relay.Runner.Claims.{waiting, marked, claim_next_event_lem, some_claim}
use aether_relay.Error.{Result, err, ok}

budget_eq :
    (max_attempts : ℕ) (d e : Db)
    → d.events ≡ e.events
    → d.attempts ≡ e.attempts
    → budget max_attempts d ≡ budget max_attempts e
unfolding budget
budget_eq max_attempts d e p q = rw (p, q) refl

module _ (o : Outside) (max_attempts : ℕ) (id endpoint_id : String) (made : ℕ) (r : DispatchResult)
    (v w' : World) where
  settled-lt :
      IsSettled o max_attempts id endpoint_id (made + 1) r v w'
      → made ≡ count_where (attempt_of id) v.db.attempts
      → count_where (event_is id) v.db.events ≡ 1
      → budget max_attempts w'.db < budget_at_work max_attempts id v.db
  unfolding insert_attempt update_status
  settled-lt s is_made single =
      let status = as_str (next_status max_attempts (made + 1) r.success) in
      let row = attempt_row (o.uuid v.uuids) id (made + 1) r (o.time v.times) in
      let d₁ = update_status (event_is id) status v.db in
      let d₂ = insert_attempt row d₁ in
      let one_more : count_where (attempt_of id) d₂.attempts ≡ made + 1 =
        ground
          (arith, count_where-insert (attempt_of id) row v.db.attempts, eq_iff id id, is_made) in
      omega (
        arith,
        budget_eq max_attempts w'.db d₂ s.events s.attempts,
        budget_split max_attempts id d₂,
        budget_of_others-insert-le max_attempts id row d₁,
        budget_of_others-update max_attempts id status v.db,
        ap (λ (n : ℕ). count_where (open_is id) d₂.events * attempts_left max_attempts n) one_more,
        ap (λ (n : ℕ). n * left_of max_attempts v.db id) single,
        ap (attempts_left max_attempts) is_made,
        event_spends max_attempts id made r.success v.db.events single,
      )

module _ (o : Outside) (cfg : DispatchLoopConfig) where
  after_settled :
      (id endpoint_id : String) (outcome : Result DispatchResult) (u w'' : World)
      → Runs (λ w. after_dispatch o id endpoint_id outcome w) u settled w''
      → (r : DispatchResult) × (outcome ≡ ok r) × (r.deferred ≡ false) × (w''.db ≡ u.db)
  unfolding after_dispatch ◌>>=◌
  after_settled id endpoint_id (ok r) u w'' h = elim (Bool-cases r.deferred) [
    | inl put_off ↦ absurd (cc (rw put_off at h))
    | inr done ↦ (r, refl, done, cc (rw done at h))
  ]
  after_settled id endpoint_id (err e) u w'' h = absurd (cc h)

  never_idle :
      (id endpoint_id : String) (outcome : Result DispatchResult) (u w'' : World)
      → ¬ Runs (λ w. after_dispatch o id endpoint_id outcome w) u idle w''
  unfolding after_dispatch ◌>>=◌
  never_idle id endpoint_id (ok r) u w'' h = elim (Bool-cases r.deferred) [
    | inl put_off ↦ cc (rw put_off at h)
    | inr done ↦ cc (rw done at h)
  ]
  never_idle id endpoint_id (err e) u w'' h = cc h

  -- What is claimed is the only event with its identifier.
  claimed_single :
      (w : World) (e : EventRow) (id : String)
      → waiting w ≡ some e
      → e.id ≡ id
      → count_where (event_is id) w.db.events ≤ 1
      → count_where (event_is id) w.db.events ≡ 1
  claimed_single w e id waits is_id unique = omega (
    arith,
    first_where_counted comes_first event_received (event_is id) w.db.events e waits
        ((eq_iff e.id id).1 is_id),
    count_where_mono (λ x. event_received x && event_is id x) (event_is id) w.db.events
        (λ x h. ground arith),
  )

  dispatched_settled-lt :
      (id endpoint_id : String) (v w'' : World)
      → Runs (dispatch_claimed o cfg (some (id, endpoint_id))) v settled w''
      → count_where (event_is id) v.db.events ≡ 1
      → budget cfg.max_attempts w''.db < budget_at_work cfg.max_attempts id v.db
  dispatched_settled-lt id endpoint_id v w'' run single =
      let dispatch =
        dispatch_single_event o cfg.circuit_failure_threshold cfg.circuit_recovery cfg.max_attempts
          id in
      let (r, returned, done, same) =
        after_settled id endpoint_id (dispatch v).0 (dispatch v).1 w'' run in
      elim (dispatch_single_event_lem o _ _ _ id v (dispatch v).1 r
        (Runs-of_ok dispatch v returned)) [
          | inl deferred' ↦ absurd (cc (done, deferred'.result))
          | inr delivered' ↦ rw same (
              settled-lt o cfg.max_attempts id delivered'.delivery.endpoint_id
                delivered'.delivery.attempt_count r v (dispatch v).1 delivered'.settled
                (attempt_count_of id v.db delivered'.delivery delivered'.due) single)
        ]

  claimed_settled-lt :
      (w v w'' : World) (claimed : Option (String × String))
      → IsSound w.db
      → Runs (claim_next_event o) w claimed v
      → Runs (dispatch_claimed o cfg claimed) v settled w''
      → budget cfg.max_attempts w''.db < budget cfg.max_attempts w.db
  claimed_settled-lt w v w'' none sound claim run = absurd (cc run)
  claimed_settled-lt w v w'' (some (id, endpoint_id)) sound claim run =
      let (e, waits, is_id, marked) = some_claim o w v id endpoint_id claim in
      let unique = sound.unique_ids id in
      let single = claimed_single w e id waits is_id unique in
      omega (
        arith,
        dispatched_settled-lt id endpoint_id v w'' run
            (rw (marked, count-update cfg.max_attempts id (as_str processing) w.db) single),
        ap (budget_at_work cfg.max_attempts id) marked,
        at_work-update cfg.max_attempts id (as_str processing) w.db,
        at_work-claimed cfg.max_attempts id w e unique waits is_id,
      )

  -- A pass that is settled lowers what is left.
  pub settled_pass-lt :
      (w w'' : World)
      → IsSound w.db
      → Runs (run_dispatch_once o cfg) w settled w''
      → budget cfg.max_attempts w''.db < budget cfg.max_attempts w.db
  unfolding run_dispatch_once
  settled_pass-lt w w'' sound run =
      let (claimed, v, claim, rest) =
        bind_inv (claim_next_event o) (dispatch_claimed o cfg) w w'' run in
      claimed_settled-lt w v w'' claimed sound claim rest

  -- No pass raises it.
  pub pass-le :
      (w : World)
      → IsSound w.db
      → budget cfg.max_attempts (run_dispatch_once o cfg w).1.db ≤ budget cfg.max_attempts w.db
  pass-le w sound =
      let m = budget cfg.max_attempts w.db in
      run_dispatch_once_keeps o cfg (λ d. budget cfg.max_attempts d ≤ m)
        (λ id d. budget_at_work cfg.max_attempts id d ≤ m)
        (λ id d h. omega (arith, budget-le-at_work cfg.max_attempts id d, h)) w
        (λ e waits. (
          writes_spend cfg.max_attempts e.id m,
          omega (
            arith,
            at_work-update cfg.max_attempts e.id (as_str processing) w.db,
            at_work-claimed cfg.max_attempts e.id w e (sound.unique_ids e.id) waits refl,
          ),
        ))
        (omega arith)

  claimed_idle :
      (w v w' : World) (claimed : Option (String × String))
      → Runs (claim_next_event o) w claimed v
      → Runs (dispatch_claimed o cfg claimed) v idle w'
      → (count_where event_received w.db.events ≡ 0) × (w'.db ≡ w.db)
  claimed_idle w v w' none claim run = elim (claim_next_event_lem o w v none claim) [
    | inl nothing ↦ (nothing.empty, cc (nothing.same, run))
    | inr oldest ↦ absurd (cc (oldest.taken))
  ]
  claimed_idle w v w' (some (id, endpoint_id)) claim run =
      let dispatch =
        dispatch_single_event o cfg.circuit_failure_threshold cfg.circuit_recovery cfg.max_attempts
          id in
      absurd (never_idle id endpoint_id (dispatch v).0 (dispatch v).1 w' run)

  -- A pass that is idle found the queue empty.
  pub idle_pass :
      (w w' : World)
      → Runs (run_dispatch_once o cfg) w idle w'
      → (count_where event_received w.db.events ≡ 0) × (w'.db ≡ w.db)
  unfolding run_dispatch_once
  idle_pass w w' run =
      let (claimed, v, claim, rest) =
        bind_inv (claim_next_event o) (dispatch_claimed o cfg) w w' run in
      claimed_idle w v w' claimed claim rest

  claimed_found :
      (w v w' : World) (claimed : Option (String × String))
      → Runs (claim_next_event o) w claimed v
      → Runs (dispatch_claimed o cfg claimed) v settled w'
      → count_where event_received w.db.events ≢ 0
  claimed_found w v w' none claim run empty = cc run
  claimed_found w v w' (some (id, endpoint_id)) claim run empty =
      let (e, waits, _, _) = some_claim o w v id endpoint_id claim in
      cc ((first_where-none_iff comes_first event_received w.db.events).1 empty, waits)

  -- A pass that is settled found an event.
  pub settled_pass_found :
      (w w' : World)
      → Runs (run_dispatch_once o cfg) w settled w'
      → count_where event_received w.db.events ≢ 0
  unfolding run_dispatch_once
  settled_pass_found w w' run empty =
      let (claimed, v, claim, rest) =
        bind_inv (claim_next_event o) (dispatch_claimed o cfg) w w' run in
      claimed_found w v w' claimed claim rest empty
