-- ===== src/System/Settled.antt =====
-- From the webhook to its end: src/api/ingest.rs and the loop of src/worker/runner.rs together.
use aether_relay.Prelude.{
  ◌=?◌, All, ℕ, ◌≤◌, ◌<◌, String, ◌≡◌, refl, Bool, true, false, ◌&&◌, ◌||◌, List, [], ◌∷◌, arith,
  eq_iff,
}
use aether_relay.Runner.Budget.{budget}
use aether_relay.Models.{
  Bytes, EventStatus, received, processing, delivered, failed, as_str, EventRow,
}
use aether_relay.Store.Rows.{Db}
use aether_relay.Runner.Progress.{
  event_processing, NoneProcessing, IsQuiet, run_dispatch_once_finishes,
}
use aether_relay.Runner.{DispatchLoopConfig, from_app_config, event_received, run_dispatch_once}
use aether_relay.System.Typed.{HasStatus, IsTyped, IsTyped-writes}
use aether_relay.Store.Schema.{
  event_is, insert_event, with_status, update_status, insert_attempt, replace_dead_letter,
}
use aether_relay.Store.Tables.{count_where}
use aether_relay.Models.Laws.{from_str_iff}
use aether_relay.System.Sound.{IsSound}
use aether_relay.Runner.Budget.Draining.{world_at, GoesWell, run_dispatch_loop_drains}
use aether_relay.Idempotency.{new_event}
use aether_relay.System.Integrity.{IsSound-writes}
use aether_relay.Store.Tables.Laws.{count_where-insert, count_where-update_same}
use aether_relay.System.Handlers.{perform_keeps}
use aether_relay.Crypto.Headers.{HeaderMap}
use aether_relay.System.Writes.{AllWritesKeep, Keeps-run_dispatch_once}
use aether_relay.Api.Target.{Parsers}
use aether_relay.Dispatcher.Writes.{WritesKeep}
use aether_relay.Api.Gate.{handle_ingest_accepts}
use aether_relay.Config.{AppConfig}
use aether_relay.Store.{Outside, World}
use aether_relay.Crypto.Crates.{Crates}
use aether_relay.Api.Ingest.{accepted, handle_ingest}
use aether_relay.Runner.Rounds.{run_dispatch_once_keeps, rounds_keep}
use aether_relay.System.{ingest_op, perform}

-- DELIVERED or FAILED
abbrev pub is_closed : EventRow → Bool
is_closed e = e.status =? as_str delivered || e.status =? as_str failed

abbrev pub closed_is : String → EventRow → Bool
closed_is id e = is_closed e && event_is id e

closed_status :
    (st : EventStatus) (e : EventRow)
    → e.status ≡ as_str st
    → event_received e ≡ false
    → event_processing e ≡ false
    → is_closed e ≡ true
closed_status received e h r p = ground (arith, eq_iff e.status (as_str received))
closed_status processing e h r p = ground (arith, eq_iff e.status (as_str processing))
closed_status delivered e h r p = ground (arith, eq_iff e.status (as_str delivered))
closed_status failed e h r p = ground (arith, eq_iff e.status (as_str failed))

closed_of_typed :
    (e : EventRow)
    → HasStatus e
    → event_received e ≡ false
    → event_processing e ≡ false
    → is_closed e ≡ true
closed_of_typed e (st, reads) r p = closed_status st e ((from_str_iff e.status st).0 reads) r p

none_open_left :
    (id : String) (events : List EventRow)
    → All HasStatus events
    → count_where event_received events ≡ 0
    → count_where event_processing events ≡ 0
    → count_where (event_is id) events ≤ count_where (closed_is id) events
unfolding count_where
none_open_left id [] typed r p = omega arith
none_open_left id (e ∷ events) (t, typed) r p =
    ground (arith, closed_of_typed e t, none_open_left id events typed)

abbrev IsPresent : String → Db → Type 0
IsPresent id d = 0 < count_where (event_is id) d.events

module _ (id : String) where
  update-IsPresent :
      (p : EventRow → Bool) (s : String) (d : Db)
      → IsPresent id d
      → IsPresent id (update_status p s d)
  unfolding update_status
  update-IsPresent p s d h =
      rw (count_where-update_same p (event_is id) (with_status s) d.events (λ e. refl)) h

  writes-IsPresent : (other : String) → WritesKeep (IsPresent id) other
  unfolding insert_attempt replace_dead_letter
  writes-IsPresent other = record {
    on_status = λ st d h. update-IsPresent (event_is other) (as_str st) d h;
    on_attempt = λ row d _ _ h. h;
    on_dead_letter = λ row d _ _ h. h;
  }

  pass-IsPresent :
      (o : Outside) (cfg : DispatchLoopConfig) (w : World)
      → IsPresent id w.db
      → IsPresent id (run_dispatch_once o cfg w).1.db
  pass-IsPresent o cfg w h =
      run_dispatch_once_keeps o cfg (IsPresent id) (λ _. IsPresent id) (λ _ _ k. k) w
        (λ e waits.
          (writes-IsPresent e.id, update-IsPresent (event_is e.id) (as_str processing) w.db h))
        h

-- What the worker makes of an event that is there.
worked_off :
    (o : Outside) (random : ℕ → ℕ → ℕ → ℕ) (cfg : DispatchLoopConfig) (rounds : ℕ) (w : World)
    (id : String)
    → IsQuiet o
    → IsSound w.db
    → IsTyped w.db
    → NoneProcessing w.db
    → IsPresent id w.db
    → GoesWell o random cfg rounds w
    → budget cfg.max_attempts w.db < rounds
    → 0 < count_where (closed_is id) (world_at o random cfg rounds w).db.events
worked_off o random cfg rounds w id quiet sound typed settled_all present well enough =
    let v = world_at o random cfg rounds w in
    omega (
      arith,
      rounds_keep o cfg random (IsPresent id) (pass-IsPresent id o cfg) rounds w present,
      none_open_left id v.db.events
          (rounds_keep o cfg random IsTyped (Keeps-run_dispatch_once o IsTyped-writes cfg).from
            rounds w typed)
          (run_dispatch_loop_drains o random cfg rounds w sound well enough)
          (rounds_keep o cfg random NoneProcessing
            (λ u h. run_dispatch_once_finishes o cfg u quiet h) rounds w settled_all),
    )

module _ (o : Outside) (c : Crates) (json_object : List (String × String) → String)
    (parsers : Parsers) (cfg : AppConfig) (endpoint_id : String) (headers : HeaderMap)
    (body : Bytes) where
  abbrev pub ingested : World → World
  ingested w = (handle_ingest o c json_object cfg endpoint_id headers body w).1

  pub ingested_keeps :
      {P : Db → Type 0} → AllWritesKeep P → (w : World) → P w.db → P (ingested w).db
  unfolding perform
  ingested_keeps k w h =
      perform_keeps o k c json_object parsers cfg (ingest_op endpoint_id headers body) w h

  stored_there :
      (w : World) (id : String) (key text : String) (now : ℕ) (d : Db)
      → d ≡ insert_event (new_event id endpoint_id key body text now) w.db
      → NoneProcessing w.db
      → IsPresent id d × NoneProcessing d
  unfolding insert_event as_str
  stored_there w id key text now d at_d settled_all =
      let row = new_event id endpoint_id key body text now in
      rw at_d (
        ground (arith, count_where-insert (event_is id) row w.db.events, eq_iff id id),
        ground (arith, count_where-insert event_processing row w.db.events, settled_all),
      )

  -- A webhook that is answered with 202 ends DELIVERED or FAILED: its event is there and closed after more
  -- rounds of the worker than there were attempts left when it was stored. The hypotheses: the tables are sound,
  -- every status is a word of `EventStatus` and no event is PROCESSING when the webhook comes, no database call
  -- fails, and no round is put off by an open circuit or fails.
  pub webhook_settles :
      (random : ℕ → ℕ → ℕ → ℕ) (rounds : ℕ) (w : World) (id : String)
      → IsQuiet o
      → IsSound w.db
      → IsTyped w.db
      → NoneProcessing w.db
      → (handle_ingest o c json_object cfg endpoint_id headers body w).0 ≡ accepted id
      → GoesWell o random (from_app_config cfg) rounds (ingested w)
      → budget (from_app_config cfg).max_attempts (ingested w).db < rounds
      → 0
        < count_where
            (closed_is id)
            (world_at o random (from_app_config cfg) rounds (ingested w)).db.events
  webhook_settles random rounds w id quiet sound typed settled_all answered well enough =
      let admitted =
        handle_ingest_accepts o c json_object cfg endpoint_id headers body w id answered in
      let (present, settled') =
        stored_there w id admitted.key _ _ (ingested w).db admitted.stored settled_all in
      worked_off o random (from_app_config cfg) rounds (ingested w) id quiet
        (ingested_keeps IsSound-writes w sound) (ingested_keeps IsTyped-writes w typed) settled'
        present well enough
