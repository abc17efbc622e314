-- ===== src/System/Smooth/Passes.antt =====
-- A pass of src/worker/runner.rs while the database answers, no breaker is open and the downstream answers with a
-- success: it finds the queue empty or settles an event.
use mathlib.Core.Option
use mathlib.Core.Option.{some-injective}
use aether_relay.Error.{Result, ok}
use aether_relay.Prelude.{
  ◌=?◌, if◌then◌else◌, Bool-cases, Option-cases, ℕ, zero, suc, ◌+◌, ◌≤◌, ◌<◌, String, ◌≡◌, refl,
  sym, ap, ◌∙◌, subst, ◌≢◌, ◌⊎◌, inl, inr, Bool, true, false, ◌&&◌, Option, none, some, List, ◌∷◌,
  arith, eq_iff,
}
use aether_relay.Models.{processing, as_str, EndpointRecord, EventRow}
use aether_relay.Store.{Outside, dispatch_attempts, World, ◌>>=◌}
use aether_relay.Store.Rows.{Db}
use aether_relay.Store.Tables.{select_where, count_where}
use aether_relay.Store.Schema.{
  endpoint_is, event_is, event_of_endpoint, attempt_is, with_status, update_status,
}
use aether_relay.Store.Runs.{tick, Runs, world_of_Runs}
use aether_relay.Breaker.{closed, CircuitBreaker, record_success}
use aether_relay.Dispatcher.{DispatchResult, attempt_row, dispatch_single_event}
use aether_relay.Dispatcher.Outcomes.{told, dispatch_single_event_lem}
use aether_relay.Runner.{
  DispatchLoopConfig, DispatchOutcome, idle, settled, deferred, comes_first, event_received, ids_of,
  mark, claim_next_event, after_dispatch, dispatch_claimed, run_dispatch_once, run_dispatch_loop,
}
use aether_relay.Runner.Claims.{waiting, marked}
use aether_relay.Runner.Rounds.{loop_world}
use aether_relay.Runner.Progress.{IsQuiet}
use aether_relay.System.Sound.{IsSound}
use aether_relay.System.Writes.{Keeps-run_dispatch_once}
use aether_relay.System.Smooth.{IsAnswering, AllClosed, dispatch-Runs}
use aether_relay.Store.Tables.Laws.{
  count_where-insert, count_where_of_select_none, select_where_counted, count_where-update_same,
  count_where_mono, first_where_counted,
}
use aether_relay.Store.Going.{
  Runs-bind, Runs-execute, Runs-transaction, Runs-call_bind, Runs-query_bind,
}
use aether_relay.System.Integrity.{IsSound-writes}

-- The identifiers that are read are all different.
abbrev pub AllDiffer : (ℕ → String) → Type 0
AllDiffer uuid = (m n : ℕ) → uuid m ≡ uuid n → m ≡ n

-- The tables are sound, no attempt has an identifier that is still to be read, and no breaker is open.
pub record IsSmooth (o : Outside) (w : World) : Type 0 where
  pub sound : IsSound w.db
  pub fresh : (n : ℕ) → w.uuids ≤ n → count_where (attempt_is (o.uuid n)) w.db.attempts ≡ 0
  pub shut : AllClosed w

found_of_count :
    {A : Type 0} (p : A → Bool) (xs : List A)
    → 0 < count_where p xs
    → (x : A) × (select_where p xs ≡ some x)
found_of_count p xs some_there = elim (Option-cases (select_where p xs)) [
  | inl missing ↦ absurd (omega (arith, count_where_of_select_none p xs missing, some_there))
  | inr found ↦ found
]

-- An event has its endpoint.
endpoint_of :
    (id : String) (d : Db) (event : EventRow)
    → IsSound d
    → select_where (event_is id) d.events ≡ some event
    → (endpoint : EndpointRecord) × (select_where (endpoint_is event.endpoint_id) d.endpoints
        ≡ some endpoint)
endpoint_of id d event s is_event =
    elim (Option-cases (select_where (endpoint_is event.endpoint_id) d.endpoints)) [
      | inl missing ↦
          let orphan =
            s.of_endpoint event.endpoint_id
              (count_where_of_select_none (endpoint_is event.endpoint_id) d.endpoints missing) in
          let owned =
            select_where_counted (event_is id) (event_of_endpoint event.endpoint_id) d.events event
              is_event ((eq_iff event.endpoint_id event.endpoint_id).1 refl) in
          absurd (omega (arith, orphan, owned))
      | inr found ↦ found
    ]

told_closed :
    (success : Bool) (b : CircuitBreaker) (now : ℕ)
    → success ≡ true
    → (told success b now).state ≡ closed
unfolding record_success
told_closed true b now h = refl
told_closed false b now h = cc h

module _ (o : Outside) (quiet : IsQuiet o) where
  mark-Runs :
      (found : Option EventRow) (w : World)
      → (n : ℕ) × Runs (mark o found) w tt (record w { db = marked found w.db; calls = n })
  unfolding marked
  mark-Runs none w = (w.calls, refl)
  mark-Runs (some e) w =
      (_, Runs-execute o (update_status (event_is e.id) (as_str processing)) w (quiet _))

  claim-Runs :
      (w : World)
      → (v : World) × Runs (claim_next_event o) w (Option.map ids_of (waiting w)) v
        × (v ≡ record w { db = marked (waiting w) w.db; calls = v.calls })
  unfolding claim_next_event
  claim-Runs w =
      let (n, marks) = mark-Runs (waiting w) (tick (tick (tick w))) in
      let u = record w { db = marked (waiting w) w.db; calls = n } in
      (
        tick u,
        Runs-call_bind o _ w _ (quiet _) (
            Runs-transaction o _ (tick w) u (quiet _)
              (Runs-query_bind o _ _ (tick (tick w)) u (quiet _)
                (Runs-bind (mark o (waiting w)) _ (tick (tick (tick w))) u u marks refl))
              (quiet _)),
        refl,
      )

  module _ (answering : IsAnswering o) (differ : AllDiffer o.uuid) (cfg : DispatchLoopConfig) where
    after-Runs :
        (id endpoint_id : String) (r : DispatchResult) (u : World)
        → r.deferred ≡ false
        → (v : World) × Runs (after_dispatch o id endpoint_id (ok r)) u settled v
          × (v ≡ record u { metrics = v.metrics })
    unfolding after_dispatch ◌>>=◌
    after-Runs id endpoint_id r u tried =
        let v = record u { metrics = dispatch_attempts endpoint_id "success" ∷ u.metrics } in
        (v, ap (λ (put_off : Bool). (ok (if put_off then deferred else settled), v)) tried, refl)

    -- A dispatch leaves the world smooth for the next one.
    dispatched_smooth :
        (id : String) (v u : World) (r : DispatchResult)
        → Runs
            (dispatch_single_event o cfg.circuit_failure_threshold cfg.circuit_recovery
              cfg.max_attempts id)
            v
            r
            u
        → r.deferred ≡ false
        → r.success ≡ true
        → u.uuids ≡ v.uuids + 1
        → ((n : ℕ) → v.uuids ≤ n → count_where (attempt_is (o.uuid n)) v.db.attempts ≡ 0)
        → AllClosed v
        → ((n : ℕ) → u.uuids ≤ n → count_where (attempt_is (o.uuid n)) u.db.attempts ≡ 0)
          × AllClosed u
    dispatched_smooth id v u r run tried won counted fresh shut =
        elim (dispatch_single_event_lem o cfg.circuit_failure_threshold cfg.circuit_recovery
          cfg.max_attempts id v u r run) [
            | inl put_off ↦ absurd (cc (tried, put_off.result))
            | inr d ↦ (
              λ n later.
                  let apart : o.uuid v.uuids ≢ o.uuid n =
                    λ same. omega (arith, differ v.uuids n same, counted, later) in
                  ground (
                    arith,
                    ap (count_where (attempt_is (o.uuid n))) d.settled.attempts,
                    count_where-insert (attempt_is (o.uuid n))
                        (attempt_row (o.uuid v.uuids) id (d.delivery.attempt_count + 1) r
                          (o.time v.times))
                        v.db.attempts,
                    fresh n (omega (arith, counted, later)),
                    eq_iff (o.uuid v.uuids) (o.uuid n),
                    apart,
                  ),
              λ other b has. elim (Bool-cases (other =? d.delivery.endpoint_id)) [
                | inl same ↦
                    let at : u.breakers other ≡ u.breakers d.delivery.endpoint_id =
                      ap u.breakers ((eq_iff other d.delivery.endpoint_id).0 same) in
                    subst (λ (x : CircuitBreaker). x.state ≡ closed)
                      (some-injective _ _ (sym d.breaker ∙ sym at ∙ has))
                      (told_closed r.success _ _ won)
                | inr apart ↦ shut other b (
                    sym (
                      d.others other
                        (λ same. cc (apart, (eq_iff other d.delivery.endpoint_id).1 same)))
                    ∙ has)
              ],
            )
          ]

    claimed_smooth :
        (w v : World) (e : EventRow)
        → waiting w ≡ some e
        → v ≡ record w {
          db = update_status (event_is e.id) (as_str processing) w.db;
          calls = v.calls;
        }
        → IsSmooth o w
        → (w' : World) × Runs (dispatch_claimed o cfg (some (e.id, e.endpoint_id))) v settled w'
          × ((n : ℕ) → w'.uuids ≤ n → count_where (attempt_is (o.uuid n)) w'.db.attempts ≡ 0)
          × AllClosed w'
    unfolding update_status
    claimed_smooth w v e waits at_v s =
        let present =
          first_where_counted comes_first event_received (event_is e.id) w.db.events e waits
            ((eq_iff e.id e.id).1 refl) in
        let there : 0 < count_where (event_is e.id) v.db.events = omega (
          arith,
          present,
          count_where_mono (λ x. event_received x && event_is e.id x) (event_is e.id) w.db.events
              (λ x h. ground arith),
          count_where-update_same (event_is e.id) (event_is e.id) (with_status (as_str processing))
              w.db.events (λ x. refl),
          ap (λ (x : World). count_where (event_is e.id) x.db.events) at_v,
        ) in
        let sound : IsSound v.db =
          subst (λ (x : World). IsSound x.db) (sym at_v)
            (unfold update_status in
              IsSound-writes.on_status (event_is e.id) processing w.db s.sound) in
        let (event, is_event) = found_of_count (event_is e.id) v.db.events there in
        let (endpoint, is_endpoint) = endpoint_of e.id v.db event sound is_event in
        let shut : AllClosed v =
          λ other b has. s.shut other b (sym (ap (λ (x : World). x.breakers other) at_v) ∙ has) in
        let fresh : (n : ℕ) → v.uuids ≤ n → count_where (attempt_is (o.uuid n)) v.db.attempts ≡ 0 =
          λ n later.
            ap (λ (x : World). count_where (attempt_is (o.uuid n)) x.db.attempts) at_v
            ∙ s.fresh n (omega (arith, ap (λ (x : World). x.uuids) at_v, later)) in
        let (u, r, run, tried, won, counted) =
          dispatch-Runs o quiet e.id answering cfg.circuit_failure_threshold cfg.circuit_recovery
            cfg.max_attempts v event endpoint is_event is_endpoint (fresh v.uuids (omega arith))
            shut in
        let (fresh', shut') = dispatched_smooth e.id v u r run tried won counted fresh shut in
        let (w', ends, at_w') = after-Runs e.id e.endpoint_id r u tried in
        (
          w',
          ap (λ (p : Result DispatchResult × World). after_dispatch o e.id e.endpoint_id p.0 p.1)
                run
              ∙ ends,
          λ n later.
              ap (λ (x : World). count_where (attempt_is (o.uuid n)) x.db.attempts) at_w'
              ∙ fresh' n (omega (arith, ap (λ (x : World). x.uuids) at_w', later)),
          λ other b has. shut' other b (sym (ap (λ (x : World). x.breakers other) at_w') ∙ has),
        )

    Passed : World → Type 0
    Passed w =
        (outcome : DispatchOutcome) × (w' : World) × Runs (run_dispatch_once o cfg) w outcome w'
        × (outcome ≡ settled ⊎ outcome ≡ idle)
        × ((n : ℕ) → w'.uuids ≤ n → count_where (attempt_is (o.uuid n)) w'.db.attempts ≡ 0)
        × AllClosed w'

    pass_runs : (w : World) → IsSmooth o w → Passed w
    unfolding run_dispatch_once marked Passed
    pass_runs w s =
        let (v, claims, at_v) = claim-Runs w in
        elim (Option-cases (waiting w)) [
          | inl nothing ↦ (
            idle,
            v,
            Runs-bind (claim_next_event o) (dispatch_claimed o cfg) w v v claims (
                ap (λ (found : Option EventRow). dispatch_claimed o cfg (Option.map ids_of found) v)
                  nothing),
            inr refl,
            λ n later.
                ap (λ (x : World). count_where (attempt_is (o.uuid n)) x.db.attempts)
                  (at_v
                    ∙ ap (λ found. record w { db = marked found w.db; calls = v.calls }) nothing)
                ∙ s.fresh n (omega (arith, ap (λ (x : World). x.uuids) at_v, later)),
            λ other b has. s.shut other b (sym (ap (λ (x : World). x.breakers other) at_v) ∙ has),
          )
          | inr (e, waits) ↦
              let at_v' =
                at_v ∙ ap (λ found. record w { db = marked found w.db; calls = v.calls }) waits in
              let (w', runs, fresh, shut) = claimed_smooth w v e waits at_v' s in
              (
                settled,
                w',
                Runs-bind (claim_next_event o) (dispatch_claimed o cfg) w v w' claims (
                    ap
                      (λ (found : Option EventRow).
                        dispatch_claimed o cfg (Option.map ids_of found) v)
                      waits
                    ∙ runs),
                inl refl,
                fresh,
                shut,
              )
        ]

    -- The pass settles an event or finds none, and the next one can do the same.
    pub pass_goes_well :
        (w : World)
        → IsSmooth o w
        → ((run_dispatch_once o cfg w).0 ≡ ok settled ⊎ (run_dispatch_once o cfg w).0 ≡ ok idle)
          × IsSmooth o (run_dispatch_once o cfg w).1
    unfolding Passed
    pass_goes_well w s =
        let (outcome, w', run, well, fresh, shut) = pass_runs w s in
        let at_end : (run_dispatch_once o cfg w).1 ≡ w' =
          world_of_Runs (run_dispatch_once o cfg) w w' run in
        let returned : (run_dispatch_once o cfg w).0 ≡ ok outcome =
          ap (λ (p : Result DispatchOutcome × World). p.0) run in
        (
          elim well [
            | inl is_settled ↦ inl (returned ∙ ap ok is_settled)
            | inr is_idle ↦ inr (returned ∙ ap ok is_idle)
          ],
          record {
            sound = (Keeps-run_dispatch_once o IsSound-writes cfg).from w s.sound;
            fresh = λ n later.
                ap (λ (x : World). count_where (attempt_is (o.uuid n)) x.db.attempts) at_end
                ∙ fresh n (omega (arith, ap (λ (x : World). x.uuids) at_end, later));
            shut = λ other b has.
                shut other b (sym (ap (λ (x : World). x.breakers other) at_end) ∙ has);
          },
        )

    pub loop-IsSmooth :
        (random : ℕ → ℕ → ℕ → ℕ) (rounds : ℕ) (w : World)
        → IsSmooth o w
        → IsSmooth o (run_dispatch_loop o random cfg rounds w).world
    unfolding run_dispatch_loop
    loop-IsSmooth random zero w s = s
    loop-IsSmooth random (suc k) w s =
        subst (IsSmooth o) (sym (loop_world o cfg random k w))
          (pass_goes_well (run_dispatch_loop o random cfg k w).world (loop-IsSmooth random k w s)).1
