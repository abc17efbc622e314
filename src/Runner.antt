-- ===== src/Runner.antt =====
-- src/worker/runner.rs: the dispatch loop.
pub mod Claims
pub mod Progress
pub mod Pacing
pub mod Rounds
pub mod Resting
pub mod Retrying
pub mod Budget
use mathlib.Core.Option
use aether_relay.Prelude.{
  ltb, ◌==◌, ◌=?◌, if◌then◌else◌, length, ℕ, zero, suc, String, Bool, ◌&&◌, ◌||◌, Option, none,
  some, List, [], ◌∷◌,
}
use aether_relay.Error.{Result, err, ok}
use aether_relay.Config.{AppConfig}
use aether_relay.Backoff.{from_millis, from_secs, decorrelated_jitter}
use aether_relay.Models.{received, processing, as_str, EventRow}
use aether_relay.Store.{
  Outside, dispatch_attempts, World, Act, pure, emit, call, query, execute, transaction, ◌>>=◌,
  ◌>>◌,
}
use aether_relay.Store.Tables.{first_where}
use aether_relay.Store.Schema.{event_is, update_status}
use aether_relay.Dispatcher.{DispatchResult, requeue_event, dispatch_single_event}
use aether_relay.Prelude.TextOrder.{le_text}

pub record DispatchLoopConfig : Type 0 where
  pub poll_interval : ℕ
  pub max_attempts : ℕ
  pub backoff_base : ℕ
  pub backoff_cap : ℕ
  pub circuit_failure_threshold : ℕ
  pub circuit_recovery : ℕ

unfoldable pub from_app_config : AppConfig → DispatchLoopConfig
from_app_config cfg = record {
  poll_interval = from_millis cfg.worker.poll_interval_ms;
  max_attempts = cfg.worker.max_attempts;
  backoff_base = from_millis cfg.worker.backoff_base_ms;
  backoff_cap = from_millis cfg.worker.backoff_cap_ms;
  circuit_failure_threshold = cfg.worker.circuit_failure_threshold;
  circuit_recovery = from_secs cfg.worker.circuit_recovery_timeout_secs;
}

pub data DispatchOutcome : Type 0 where
  idle settled deferred : DispatchOutcome

-- ORDER BY created_at ASC, id ASC
abbrev pub comes_first : EventRow → EventRow → Bool
comes_first e f =
    ltb e.created_at f.created_at || (e.created_at == f.created_at && le_text e.id f.id)

abbrev pub event_received : EventRow → Bool
event_received e = e.status =? as_str received

-- The two columns of the row that was selected.
abbrev pub ids_of : EventRow → String × String
ids_of e = (e.id, e.endpoint_id)

-- What the loop keeps between two rounds, and the pauses that it made, the last one first.
pub record Loop : Type 0 where
  pub world : World
  pub prev_sleep : ℕ
  pub slept : List ℕ

module _ (o : Outside) where
  abbrev pub mark : Option EventRow → Act (Unit {0})
  mark none = pure tt
  mark (some e) = execute o (update_status (event_is e.id) (as_str processing))

  unfoldable pub claim_next_event : Act (Option (String × String))
  claim_next_event = do
    call o
    transaction o do
      claimed ← query o (λ d. first_where comes_first event_received d.events)
      mark claimed
      pure (Option.map ids_of claimed)

  abbrev pub label : Result DispatchResult → String
  label (ok _) = "success"
  label (err _) = "failure"

  abbrev pub conclude : String → Result DispatchResult → Act DispatchOutcome
  conclude event_id (ok r) w = (ok (if r.deferred then deferred else settled), w)
  conclude event_id (err e) w = let (_, w') = requeue_event o event_id w in (err e, w')

  -- The second half of `run_dispatch_once`: what is made of the result of the dispatch.
  unfoldable pub after_dispatch : String → String → Result DispatchResult → Act DispatchOutcome
  after_dispatch event_id endpoint_id outcome = do
    emit (dispatch_attempts endpoint_id (label outcome))
    conclude event_id outcome

  abbrev pub dispatch_claimed : DispatchLoopConfig → Option (String × String) → Act DispatchOutcome
  dispatch_claimed cfg none w = (ok idle, w)
  dispatch_claimed cfg (some (event_id, endpoint_id)) w =
      let (outcome, w') =
        dispatch_single_event o cfg.circuit_failure_threshold cfg.circuit_recovery cfg.max_attempts
          event_id w in
      after_dispatch event_id endpoint_id outcome w'

  unfoldable pub run_dispatch_once : DispatchLoopConfig → Act DispatchOutcome
  run_dispatch_once cfg = do claimed ← claim_next_event; dispatch_claimed cfg claimed

  -- `random` is the draw of `random_range` that is made after so many pauses.
  module _ (random : ℕ → ℕ → ℕ → ℕ) (cfg : DispatchLoopConfig) where
    abbrev pub pause : ℕ → World → ℕ → List ℕ → Loop
    pause d w prev slept = record { world = w; prev_sleep = prev; slept = d ∷ slept }

    abbrev pub back_off : Loop → World → Loop
    back_off l w =
        let draw = random (length l.slept) in
        let delay = decorrelated_jitter draw cfg.backoff_base cfg.backoff_cap l.prev_sleep in
        pause delay w delay l.slept

    abbrev pub react : Loop → Result DispatchOutcome → World → Loop
    react l (ok settled) w = record l { world = w; prev_sleep = cfg.backoff_base }
    react l (ok idle) w = pause cfg.poll_interval w l.prev_sleep l.slept
    react l (ok deferred) w = back_off l w
    react l (err e) w = back_off l w

    -- One round of `run_dispatch_loop`.
    unfoldable pub loop_round : Loop → Loop
    loop_round l = let (outcome, w) = run_dispatch_once cfg l.world in react l outcome w

    -- The loop ends only with the process: its first rounds, as many as asked for.
    unfoldable pub run_dispatch_loop : ℕ → World → Loop
    unfolding loop_round
    run_dispatch_loop zero w = record { world = w; prev_sleep = cfg.backoff_base; slept = [] }
    run_dispatch_loop (suc rounds) w = loop_round (run_dispatch_loop rounds w)
