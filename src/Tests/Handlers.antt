-- ===== src/Tests/Handlers.antt =====
-- The handlers of src/api at concrete requests.
use aether_relay.Prelude.{String, ◌≡◌, refl, true, none, some, List, [], ◌∷◌}
use aether_relay.Prelude.Text.{decimal}
use aether_relay.Prelude.Str.{as_bytes, trim, strip_prefix, ends_with, to_lowercase}
use aether_relay.Error.{unauthorized, ok, status_code, into_response}
use aether_relay.Models.{as_str, AttemptRow, DeadLetterRow}
use aether_relay.Config.{AppConfig}
use aether_relay.Store.{Metric, ingest_total, World, store}
use aether_relay.Store.Runs.{Runs}
use aether_relay.Store.Tables.{select_where, update_where, delete_where, count_where}
use aether_relay.Store.Schema.{
  endpoint_is, event_of_endpoint, attempt_of, dead_letter_is, exists_where, insert_endpoint_breaks,
  insert_endpoint, insert_event_breaks, update_status, delete_attempts, delete_dead_letter,
  delete_endpoint_rows,
}
use aether_relay.Idempotency.{accept_event}
use aether_relay.Api.Ingest.{
  idempotency_key_of, kept_headers, accepted, refused, find_endpoint, store_event, verify_and_store,
  handle_ingest_inner, handle_ingest,
}
use aether_relay.Api.Gate.{Admitted, handle_ingest_accepts}
use aether_relay.Api.Refusal.{handle_ingest_refuses}
use aether_relay.Api.Dlq.{replayed_answer, replay, replay_dlq}
use aether_relay.Api.Replay.{not_waiting, replay_dlq_lem}
use aether_relay.Api.Endpoints.{
  EndpointResponse, endpoint_row, to_response, undelivered, create_endpoint, delete_if_drained,
  delete_endpoint,
}
use aether_relay.Api.Management.{Allowed, NothingOf, create_endpoint_lem, delete_endpoint_lem}
use aether_relay.Crypto.Headers.{get}
use aether_relay.Crypto.Schemes.{verify_github}
use aether_relay.Crypto.Signature.{provider_from_str, verify_signature}
use aether_relay.Api.Auth.{verify_api_key}
use aether_relay.Api.Target.{
  Parsers, is_blocked_v4, is_blocked_ip, CreateEndpointRequest, is_blocked_host,
  validate_target_url, validate_new_endpoint,
}
use aether_relay.Tests.Fixture.{first_event, db, failing, world_of, start}
use aether_relay.Tests.Requests.{crates, body, headers}

abbrev pub cfg : AppConfig
cfg = record {
  server = record { host = "0.0.0.0"; port = 8080; body_limit_bytes = 1024 };
  database = record {
    path = "relay.db";
    busy_timeout_ms = 5000;
    mmap_size = 0;
    cache_size_negative = true;
    cache_size = 64000;
    pool_size = 4;
  };
  auth = record { api_keys = "alpha" ∷ "beta" ∷ [] };
  worker = record {
    poll_interval_ms = 100;
    max_attempts = 3;
    backoff_base_ms = 100;
    backoff_cap_ms = 1000;
    circuit_failure_threshold = 3;
    circuit_recovery_timeout_secs = 30;
  };
  logging = record { level = "info"; format = "json" };
  metrics = record { enabled = true };
}

abbrev pub json : List (String × String) → String
json _ = "{}"

unfoldable pub handlers : Unit {0}
unfolding store select_where count_where delete_where update_where decimal as_bytes strip_prefix
    to_lowercase trim handle_ingest handle_ingest_inner find_endpoint verify_and_store store_event
    accept_event insert_event_breaks kept_headers idempotency_key_of verify_api_key get
    provider_from_str verify_signature verify_github replay_dlq replay update_status delete_attempts
    delete_dead_letter as_str create_endpoint validate_new_endpoint validate_target_url
    is_blocked_host ends_with is_blocked_ip is_blocked_v4 insert_endpoint_breaks insert_endpoint
    delete_endpoint delete_if_drained delete_endpoint_rows into_response status_code
handlers = tt

stored : (handle_ingest failing crates json cfg "ep" headers body start).0 ≡ accepted "id-0"
unfolding handlers
stored = refl

handle_ingest_accepts_example :
    Admitted failing crates json cfg "ep" headers body start "id-0"
      (handle_ingest failing crates json cfg "ep" headers body start).1.db
handle_ingest_accepts_example =
    handle_ingest_accepts failing crates json cfg "ep" headers body start "id-0" stored

not_keyed :
    (handle_ingest failing crates json cfg "ep" [] body start).0
    ≡ refused (into_response (unauthorized "Missing X-Api-Key header"))
unfolding handlers
not_keyed = refl

handle_ingest_refuses_example :
    ((handle_ingest failing crates json cfg "ep" [] body start).1.db ≡ db)
    × ((earlier : List Metric) × ((handle_ingest failing crates json cfg "ep" [] body
            start).1.metrics
          ≡ ingest_total "ep" "unknown"
              (into_response (unauthorized "Missing X-Api-Key header")).status
            ∷ earlier))
handle_ingest_refuses_example =
    handle_ingest_refuses failing crates json cfg "ep" [] body start
      (into_response (unauthorized "Missing X-Api-Key header")) not_keyed

abbrev pub dead : DeadLetterRow
dead = record {
  id = "dl-1";
  event_id = "ev-1";
  endpoint_id = "ep";
  error_reason = "Downstream HTTP 503";
  last_attempt_status = some 503;
  created_at = 50;
}

abbrev buried : World
buried = world_of (record db { dead_letters = dead ∷ [] })

abbrev replayed : World
replayed = (replay_dlq failing cfg "dl-1" headers buried).1

replays : Runs (replay_dlq failing cfg "dl-1" headers) buried (replayed_answer "ev-1") replayed
unfolding handlers
replays = refl

replay_dlq_lem_example :
    (row : DeadLetterRow) × (select_where (dead_letter_is "dl-1") (dead ∷ []) ≡ some row)
    × (replayed_answer "ev-1" ≡ replayed_answer row.event_id)
    × (count_where (dead_letter_is "dl-1") replayed.db.dead_letters ≡ 0)
    × (count_where (not_waiting row.event_id) replayed.db.events ≡ 0)
    × (count_where (attempt_of row.event_id) replayed.db.attempts ≡ 0)
replay_dlq_lem_example =
    replay_dlq_lem failing cfg "dl-1" headers buried replayed (replayed_answer "ev-1") replays

abbrev pub parsers : Parsers
parsers = record {
  parse_url = λ raw. ok (record { scheme = "https"; host_str = some "shop.example" });
  parse_ip = λ s. none;
}

abbrev pub request : CreateEndpointRequest
request = record {
  name = "shop";
  provider = "Stripe";
  secret = "whsec";
  target_url = "https://shop.example/hook";
}

abbrev created : World
created = (create_endpoint failing cfg parsers headers request start).1

abbrev created_answer : EndpointResponse
created_answer = to_response (endpoint_row request "id-0" 100)

creates : Runs (create_endpoint failing cfg parsers headers request) start created_answer created
unfolding handlers
creates = refl

create_endpoint_lem_example :
    Allowed parsers request
    × (created_answer ≡ to_response (endpoint_row request "id-0" 100))
    × (count_where (endpoint_is "id-0") db.endpoints ≡ 0)
    × (created.db ≡ insert_endpoint (endpoint_row request "id-0" 100) db)
create_endpoint_lem_example =
    create_endpoint_lem failing cfg parsers headers request start created created_answer creates

abbrev tried : AttemptRow
tried = record {
  id = "at-1";
  event_id = "ev-1";
  attempt_number = 1;
  response_status = some 200;
  response_body = none;
  error_message = none;
  created_at = 20;
}

-- One event, which is DELIVERED.
abbrev drained : World
drained = world_of (record db {
  events = record first_event { status = "DELIVERED" } ∷ [];
  attempts = tried ∷ [];
  dead_letters = dead ∷ [];
})

abbrev deleted : World
deleted = (delete_endpoint failing cfg "ep" headers drained).1

deletes : Runs (delete_endpoint failing cfg "ep" headers) drained tt deleted
unfolding handlers
deletes = refl

delete_endpoint_lem_example :
    (count_where (undelivered "ep") drained.db.events ≡ 0)
    × (exists_where (endpoint_is "ep") db.endpoints ≡ true)
    × (count_where (endpoint_is "ep") deleted.db.endpoints ≡ 0)
    × (count_where (event_of_endpoint "ep") deleted.db.events ≡ 0)
    × NothingOf "ep" drained.db deleted.db
delete_endpoint_lem_example =
    delete_endpoint_lem failing cfg "ep" headers drained deleted tt deletes
