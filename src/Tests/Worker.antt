-- ===== src/Tests/Worker.antt =====
-- The dispatch worker on the small relay.
use aether_relay.Prelude.{
  leb, ◌=?◌, if◌then◌else◌, length, All, ◌+◌, ◌≤◌, ◌<◌, ◌≡◌, refl, ◌≢◌, ◌⊎◌, true, false, ◌&&◌,
  none, some, [], ◌∷◌, arith,
}
use aether_relay.Error.{ok}
use aether_relay.Models.{received, processing, failed, as_str}
use aether_relay.Config.{AppConfig}
use aether_relay.Store.Rows.{Db}
use aether_relay.Store.{Outside, World, store}
use aether_relay.Store.Runs.{Runs-of_ok}
use aether_relay.Runner.Retrying.{loop_round_retries}
use aether_relay.Store.Tables.{select_where, update_where, delete_where, count_where, first_where}
use aether_relay.Store.Schema.{
  event_is, attempt_of, update_status, insert_attempt_breaks, insert_attempt,
  replace_dead_letter_breaks, replace_dead_letter,
}
use aether_relay.Dispatcher.{
  DispatchResult, judge, requeue_event, fetch, check_breaker, post, report, settle,
  dispatch_single_event,
}
use aether_relay.Dispatcher.Outcomes.{IsDeferred, IsDelivered, dispatch_single_event_lem}
use aether_relay.Runner.{
  DispatchLoopConfig, from_app_config, Loop, claim_next_event, after_dispatch, run_dispatch_once,
  loop_round, run_dispatch_loop,
}
use aether_relay.Breaker.{new, can_attempt, record_success, record_failure}
use aether_relay.Prelude.Text.{decimal}
use aether_relay.Tests.Fixture.{first_event, second_event, db, failing, world_of, start}
use aether_relay.Runner.Pacing.{IsPaced, run_dispatch_loop-IsPaced}
use aether_relay.Prelude.TextOrder.{le_text}
use aether_relay.Runner.Resting.{IsResting, run_dispatch_loop-IsResting}
use aether_relay.Runner.Claims.{waiting, ClaimsNothing, ClaimsOldest, claim_next_event_lem}
use aether_relay.Runner.Progress.{NoneProcessing, run_dispatch_once_finishes}

unfoldable pub worker : Unit {0}
unfolding store dispatch_single_event fetch check_breaker post report settle judge requeue_event
    select_where count_where delete_where update_where first_where update_status as_str
    insert_attempt insert_attempt_breaks replace_dead_letter replace_dead_letter_breaks can_attempt
    record_failure record_success new claim_next_event after_dispatch run_dispatch_once
    run_dispatch_loop le_text decimal from_app_config
worker = tt

abbrev app : AppConfig
app = record {
  server = record { host = "0.0.0.0"; port = 3000; body_limit_bytes = 1048576 };
  database = record {
    path = "./data/aether-relay.db";
    busy_timeout_ms = 5000;
    mmap_size = 268435456;
    cache_size_negative = true;
    cache_size = 64000;
    pool_size = 4;
  };
  auth = record { api_keys = [] };
  worker = record {
    poll_interval_ms = 100;
    max_attempts = 5;
    backoff_base_ms = 1000;
    backoff_cap_ms = 60000;
    circuit_failure_threshold = 5;
    circuit_recovery_timeout_secs = 30;
  };
  logging = record { level = "info"; format = "json" };
  metrics = record { enabled = true };
}

abbrev pub cfg : DispatchLoopConfig
cfg = record {
  poll_interval = 100;
  max_attempts = 2;
  backoff_base = 1000;
  backoff_cap = 60000;
  circuit_failure_threshold = 5;
  circuit_recovery = 30;
}

-- The first event by time and identifier, though it was stored last.
claims_first : (claim_next_event failing start).0 ≡ ok (some ("ev-1", "ep"))
unfolding worker
claims_first = refl

claims_second :
    (claim_next_event failing (claim_next_event failing start).1).0 ≡ ok (some ("ev-2", "ep"))
unfolding worker
claims_second = refl

abbrev claimed_world : World
claimed_world = (claim_next_event failing start).1

claim_next_event_lem_example :
    ClaimsNothing start claimed_world (some ("ev-1", "ep"))
    ⊎ ClaimsOldest start claimed_world (some ("ev-1", "ep"))
claim_next_event_lem_example =
    claim_next_event_lem failing start claimed_world (some ("ev-1", "ep"))
      (Runs-of_ok (claim_next_event failing) start claims_first)

abbrev refused : DispatchResult
refused = record {
  success = false;
  status_code = some 503;
  error = some "Downstream HTTP 503";
  deferred = false;
}

dispatch_refused : (dispatch_single_event failing 5 30 2 "ev-1" start).0 ≡ ok refused
unfolding worker
dispatch_refused = refl

abbrev refused_world : World
refused_world = (dispatch_single_event failing 5 30 2 "ev-1" start).1

dispatch_single_event_lem_example :
    IsDeferred failing 5 30 2 "ev-1" start refused_world refused
    ⊎ IsDelivered failing 5 30 2 "ev-1" start refused_world refused
dispatch_single_event_lem_example =
    dispatch_single_event_lem failing 5 30 2 "ev-1" start refused_world refused
      (Runs-of_ok (dispatch_single_event failing 5 30 2 "ev-1") start dispatch_refused)

-- Four rounds: each event is tried twice and parked.
two_parked :
    length (run_dispatch_loop failing (λ n lo hi. lo) cfg 4 start).world.db.dead_letters ≡ 2
unfolding worker
two_parked = refl

none_processing : NoneProcessing db
unfolding worker
none_processing = refl

run_dispatch_once_finishes_example : NoneProcessing (run_dispatch_once failing cfg start).1.db
run_dispatch_once_finishes_example =
    run_dispatch_once_finishes failing cfg start (λ n. refl) none_processing

-- What a crash behind the claim leaves.
abbrev crashed : World
crashed =
    world_of
      (record db { events = record first_event { status = "PROCESSING" } ∷ second_event ∷ [] })

crashed-IsResting : IsResting "ev-1" processing 0 crashed.db
unfolding worker
crashed-IsResting = record { present = omega arith; in_status = refl; attempts = refl }

processing-ne-received : processing ≢ received
processing-ne-received h = cc h

run_dispatch_loop-IsResting_example :
    IsResting "ev-1" processing 0 (run_dispatch_loop failing (λ n lo hi. lo) cfg 9 crashed).world.db
run_dispatch_loop-IsResting_example =
    run_dispatch_loop-IsResting failing cfg "ev-1" processing 0 processing-ne-received
      (λ n lo hi. lo) 9 crashed crashed-IsResting

run_dispatch_loop-IsPaced_example :
    All
      (IsPaced app)
      (run_dispatch_loop failing (λ n lo hi. lo) (from_app_config app) 3 start).slept
run_dispatch_loop-IsPaced_example =
    run_dispatch_loop-IsPaced failing (λ n lo hi. lo) app (λ n lo hi h. (omega arith, h))
      (omega arith) (omega arith) 3 start

abbrev first_round : Loop
first_round = record { world = start; prev_sleep = 1000; slept = [] }

after_claim : (dispatch_single_event failing 5 30 2 "ev-1" claimed_world).0 ≡ ok refused
unfolding worker
after_claim = refl

one_left : count_where (attempt_of "ev-1") start.db.attempts + 1 < cfg.max_attempts
unfolding worker
one_left = omega arith

only_one : count_where (event_is "ev-1") start.db.events ≤ 1
unfolding worker
only_one = omega arith

loop_round_retries_example :
    ((loop_round failing (λ n lo hi. lo) cfg first_round).slept ≡ [])
    × (waiting (loop_round failing (λ n lo hi. lo) cfg first_round).world ≡ waiting start)
loop_round_retries_example =
    loop_round_retries failing cfg (λ n lo hi. lo) first_round "ev-1" "ep" claimed_world
      (dispatch_single_event failing 5 30 2 "ev-1" claimed_world).1 refused
      (Runs-of_ok (claim_next_event failing) start claims_first)
      (Runs-of_ok (dispatch_single_event failing 5 30 2 "ev-1") claimed_world after_claim) refl refl
      one_left only_one

-- The database fails from the INSERT of the dead letter on: the event is FAILED, and has no dead letter.
abbrev filling_up : Outside
filling_up = record failing {
  fault = λ n. if leb 12 n then some "database or disk is full" else none;
}

abbrev left_behind : Db
left_behind = (run_dispatch_once filling_up (record cfg { max_attempts = 1 }) start).1.db

failed_without_dead_letter :
    (count_where (λ e. event_is "ev-1" e && e.status =? as_str failed) left_behind.events ≡ 1)
    × (left_behind.dead_letters ≡ [])
unfolding worker
failed_without_dead_letter = (refl, refl)
