-- ===== src/System/Answering.antt =====
-- A webhook whose endpoint answers well: src/api/ingest.rs and src/worker together.
use aether_relay.Prelude.{
  ℕ, ◌+◌, ◌≤◌, ◌<◌, String, ◌≡◌, ap, ◌∙◌, ◌≢◌, Bool, not, ◌&&◌, List, [], ◌∷◌, arith, eq_iff,
}
use aether_relay.Models.{
  Bytes, EventStatus, received, processing, delivered, failed, as_str, EventRow, AttemptRow,
}
use aether_relay.Store.{Outside, World, execute}
use aether_relay.Store.Rows.{Db}
use aether_relay.System.Smooth.{IsAnswering, AllClosed, answers_win}
use aether_relay.System.Smooth.Passes.{AllDiffer, IsSmooth, pass_goes_well, loop-IsSmooth}
use aether_relay.Dispatcher.{judge, settle}
use aether_relay.Config.{AppConfig}
use aether_relay.Runner.{DispatchLoopConfig, from_app_config, run_dispatch_once}
use aether_relay.Runner.Budget.{budget}
use aether_relay.Runner.Budget.Draining.{world_at, GoesWell}
use aether_relay.Api.Ingest.{accepted, handle_ingest}
use aether_relay.Api.Target.{Parsers}
use aether_relay.Crypto.Crates.{Crates}
use aether_relay.System.Evidence.{in_state}
use aether_relay.Runner.Rounds.{rounds_keep}
use aether_relay.Store.Schema.{
  event_is, attempt_is, insert_event, with_status, update_status, insert_attempt,
}
use aether_relay.System.Settled.{closed_is, ingested, ingested_keeps, webhook_settles}
use aether_relay.Idempotency.{new_event}
use aether_relay.Store.Tables.Laws.{count_where-insert, count_where-update_left, count_where_mono}
use aether_relay.Store.Keeps.{
  Keeps, Keeps-bind, Keeps-call, Keeps-now_secs, Keeps-now_v7, Keeps-statement, Keeps-execute,
}
use aether_relay.Api.Gate.{handle_ingest_accepts}
use aether_relay.Models.Laws.{as_str-injective}
use aether_relay.Store.Tables.{count_where}
use aether_relay.System.Typed.{IsTyped}
use aether_relay.System.Sound.{IsSound}
use aether_relay.Store.Triples.{Keeps-of_Leads, Leads-of_Keeps, Leads-branch}
use aether_relay.System.Writes.{pass-Keeps}
use aether_relay.Dispatcher.Writes.{requeue-Keeps, dispatch-Keeps}
use aether_relay.Crypto.Headers.{HeaderMap}
use aether_relay.Runner.Progress.{NoneProcessing, IsQuiet}
use aether_relay.System.Integrity.{IsSound-writes}

abbrev NoneFailed : String → Db → Type 0
NoneFailed id d = count_where (in_state failed id) d.events ≡ 0

closed_parts :
    (id : String) (events : List EventRow)
    → count_where (closed_is id) events
      ≤ count_where (in_state delivered id) events + count_where (in_state failed id) events
unfolding count_where
closed_parts id [] = omega arith
closed_parts id (e ∷ events) = ground (arith, closed_parts id events)

status-NoneFailed :
    (id : String) (p : EventRow → Bool) (st : EventStatus) (d : Db)
    → st ≢ failed
    → NoneFailed id d
    → NoneFailed id (update_status p (as_str st) d)
unfolding update_status
status-NoneFailed id p st d ne h =
    let left =
      count_where-update_left p (in_state failed id) (with_status (as_str st)) d.events (λ x _.
        ground (arith, eq_iff (as_str st) (as_str failed), as_str-injective st failed, ne)) in
    let fewer =
      count_where_mono (λ x. in_state failed id x && not (p x)) (in_state failed id) d.events
        (λ x k. ground arith) in
    omega (arith, left, fewer, h)

module _ (o : Outside) (answering : IsAnswering o) (id other : String) where
  update-Keeps :
      (st : EventStatus)
      → st ≢ failed
      → Keeps (NoneFailed id) (execute o (update_status (event_is other) (as_str st)))
  update-Keeps st ne = Keeps-execute o _ (λ d h. status-NoneFailed id (event_is other) st d ne h)

  attempt-NoneFailed :
      (row : AttemptRow) (d : Db) → NoneFailed id d → NoneFailed id (insert_attempt row d)
  unfolding insert_attempt
  attempt-NoneFailed row d h = h

  settles :
      (max_attempts : ℕ) (endpoint_id : String) (n k : ℕ) (url : String) (body : Bytes)
      → Keeps
          (NoneFailed id)
          (settle o max_attempts other endpoint_id n (judge (o.post k url body)))
  unfolding settle
  settles max_attempts endpoint_id n k url body = Keeps-bind _ _ (Keeps-call o) λ _.
      Keeps-bind _ _ (Keeps-now_v7 o) λ attempt_id. Keeps-bind _ _ (Keeps-now_secs o) λ now.
        Keeps-bind _ _ (Keeps-statement o _ _ _ (λ d _ h. attempt-NoneFailed _ d h)) λ _.
          Keeps-of_Leads (
            Leads-branch (judge (o.post k url body)).success _ _
              (λ _. Leads-of_Keeps (λ d h. h) (update-Keeps delivered (λ e. cc e)))
              (λ lost. absurd (cc (lost, answers_win o answering k url body))))

module _ (o : Outside) (answering : IsAnswering o) (id : String) where
  pass-NoneFailed : (cfg : DispatchLoopConfig) → Keeps (NoneFailed id) (run_dispatch_once o cfg)
  pass-NoneFailed cfg =
      let on_received = λ (other : String) (d : Db) (h : NoneFailed id d).
        status-NoneFailed id (event_is other) received d (λ e. cc e) h in
      pass-Keeps o cfg
        (λ other d h. status-NoneFailed id (event_is other) processing d (λ e. cc e) h)
        (λ other.
          dispatch-Keeps o other (on_received other) cfg.max_attempts
            (λ e n k url body w _ h.
              (settles o answering id other cfg.max_attempts e (n + 1) k url body).from w h)
            _ _)
        (λ other. requeue-Keeps o other (on_received other))

-- A new event has not failed, and no other has its identifier.
new-NoneFailed :
    (id endpoint_id key text : String) (body : Bytes) (now : ℕ) (d d' : Db)
    → d' ≡ insert_event (new_event id endpoint_id key body text now) d
    → IsSound d'
    → NoneFailed id d'
unfolding insert_event as_str
new-NoneFailed id endpoint_id key text body now d d' at_d' s =
    let row = new_event id endpoint_id key body text now in
    let unique = rw at_d' at (s.unique_ids id) in
    let before =
      count_where_mono (in_state failed id) (event_is id) d.events (λ e k. ground arith) in
    rw at_d' (
      ground (
        arith,
        count_where-insert (event_is id) row d.events,
        count_where-insert (in_state failed id) row d.events,
        eq_iff id id,
        unique,
        before,
      ))

module _ (o : Outside) (c : Crates) (json_object : List (String × String) → String)
    (parsers : Parsers) (cfg : AppConfig) (endpoint_id : String) (headers : HeaderMap)
    (body : Bytes) where
  same_attempts :
      (before after : Db) (row : EventRow) (n : ℕ)
      → after ≡ insert_event row before
      → count_where (attempt_is (o.uuid n)) after.attempts
        ≡ count_where (attempt_is (o.uuid n)) before.attempts
  unfolding insert_event
  same_attempts before after row n at_d =
      ap (λ (d : Db). count_where (attempt_is (o.uuid n)) d.attempts) at_d

  -- A webhook that is answered with 202 ends DELIVERED, if every request of the worker is answered with a status
  -- from 200 to 299: its event is there and DELIVERED after more rounds of the worker than there were attempts
  -- left when it was stored. The other hypotheses: when the webhook comes, the tables are sound, every status is a
  -- word of `EventStatus`, no event is PROCESSING and no attempt has an identifier that is read later; the
  -- identifiers that are read are all different; no database call fails; and no breaker is open when the worker
  -- starts.
  pub webhook_delivers :
      (random : ℕ → ℕ → ℕ → ℕ) (rounds : ℕ) (w : World) (id : String)
      → IsAnswering o
      → IsQuiet o
      → IsSound w.db
      → IsTyped w.db
      → NoneProcessing w.db
      → (handle_ingest o c json_object cfg endpoint_id headers body w).0 ≡ accepted id
      → AllDiffer o.uuid
      → ((n : ℕ) → count_where (attempt_is (o.uuid n)) w.db.attempts ≡ 0)
      → AllClosed (ingested o c json_object parsers cfg endpoint_id headers body w)
      → budget
          (from_app_config cfg).max_attempts
          (ingested o c json_object parsers cfg endpoint_id headers body w).db
        < rounds
      → 0
        < count_where
            (in_state delivered id)
            (world_at o random
              (from_app_config cfg)
              rounds
              (ingested o c json_object parsers cfg endpoint_id headers body w)).db.events
  webhook_delivers random rounds w id answering quiet sound typed settled_all answered differ fresh
        shut enough =
      let v = ingested o c json_object parsers cfg endpoint_id headers body w in
      let admitted =
        handle_ingest_accepts o c json_object cfg endpoint_id headers body w id answered in
      let sound' =
        ingested_keeps o c json_object parsers cfg endpoint_id headers body IsSound-writes w
          sound in
      let smooth : IsSmooth o v = record {
        sound = sound';
        fresh = λ n _. same_attempts w.db v.db _ n admitted.stored ∙ fresh n;
        shut = shut;
      } in
      let well : GoesWell o random (from_app_config cfg) rounds v = λ k _.
        (pass_goes_well o quiet answering differ (from_app_config cfg)
          (world_at o random (from_app_config cfg) k v)
          (loop-IsSmooth o quiet answering differ (from_app_config cfg) random k v smooth)).0 in
      let unfailed =
        rounds_keep o (from_app_config cfg) random (NoneFailed id)
          (pass-NoneFailed o answering id (from_app_config cfg)).from rounds v
          (new-NoneFailed id endpoint_id admitted.key _ body _ w.db v.db admitted.stored sound') in
      let closed =
        webhook_settles o c json_object parsers cfg endpoint_id headers body random rounds w id
          quiet sound typed settled_all answered well enough in
      omega (
        arith,
        closed,
        unfailed,
        closed_parts id (world_at o random (from_app_config cfg) rounds v).db.events,
      )
