-- ===== src/Tests/Serving.antt =====
-- Requests to the routes, and statements of several handlers in turn.
use aether_relay.Prelude.{ltb, if◌then◌else◌, length, refl, ◌≢◌, none, List, [], ◌∷◌, arith}
use aether_relay.Error.{ok}
use aether_relay.Api.Http.{nothing, text}
use aether_relay.Tests.Requests.{crates, body, headers}
use aether_relay.Tests.Handlers.{cfg, json, parsers, request}
use aether_relay.Tests.Sequences.{empty, empty-IsSound, nothing_delivered, nothing_failed}
use aether_relay.Crypto.Headers.{get}
use aether_relay.Api.Router.{
  list_dlq_route, create_route, ingest_route, Request, taken, rejected, Axum, create_router,
}
use aether_relay.Models.{processing, delivered, as_str}
use aether_relay.Store.Schema.{
  event_is, insert_endpoint_breaks, insert_endpoint, insert_event_breaks, insert_event,
  update_status,
}
use aether_relay.System.Interleaving.{
  set_status, add_endpoint, add_event, Writes, none_yet, later, Writes-IsSound,
}
use aether_relay.Api.Router.Gated.{RejectsAsError, IsTurnedAway, create_router_turns_away}
use aether_relay.System.Sound.{IsSound}
use aether_relay.Api.Auth.{verify_api_key}
use aether_relay.Tests.Fixture.{endpoint, first_event, second_event, failing, start}
use aether_relay.Store.Tables.{select_where, update_where, count_where}
use aether_relay.Store.Rows.{Db}
use aether_relay.System.Turns.{
  Turn, request_turn, worker_turn, IsTruthful, take_turns, take_turns-IsTruthful,
}
use aether_relay.Runner.{from_app_config}

-- axum with its documented limit of two megabytes, and a JSON reader that wants a body.
abbrev limited : Axum
limited = record {
  bytes = λ r.
      if ltb 2_097_152 (length r.body)
      then rejected (record { status = 413; body = text "length limit exceeded" })
      else taken r.body;
  json = λ r.
      if ltb 0 (length r.body)
      then taken request
      else rejected (record { status = 400; body = text "EOF while parsing a value" });
  fallback = record { status = 404; body = nothing };
}

limited-RejectsAsError : RejectsAsError limited
limited-RejectsAsError = record { bytes = λ r res h. ground arith; json = λ r res h. ground arith }

abbrev anonymous : Request
anonymous = record { method = "POST"; headers = []; body = body }

no_key : verify_api_key [] cfg.auth.api_keys ≢ ok tt
unfolding verify_api_key get
no_key h = cc

create_router_turns_away_example :
    IsTurnedAway start (
      create_router failing crates json parsers limited none cfg
        (ingest_route "ep")
        anonymous
        start)
create_router_turns_away_example =
    create_router_turns_away failing crates json parsers limited none cfg (ingest_route "ep")
      anonymous start limited-RejectsAsError refl no_key

abbrev keyed : Request
keyed = record { method = "POST"; headers = headers; body = body }

-- An endpoint, a webhook for it, a pass of the worker, a list of the dead letters without a key.
abbrev turns : List Turn
turns =
    request_turn create_route keyed
    ∷ request_turn (ingest_route "id-0") keyed
    ∷ worker_turn
    ∷ request_turn list_dlq_route anonymous
    ∷ []

empty-IsTruthful : IsTruthful (from_app_config cfg).max_attempts empty.db
empty-IsTruthful = record { typed = tt; answered = nothing_delivered; exhausted = nothing_failed }

take_turns-IsTruthful_example :
    IsTruthful
      (from_app_config cfg).max_attempts
      (take_turns failing crates json parsers limited none cfg turns empty).db
take_turns-IsTruthful_example =
    take_turns-IsTruthful failing crates json parsers limited none cfg turns empty empty-IsTruthful

-- A webhook is stored while the worker settles another event of a new endpoint.
abbrev first_db : Db
first_db = insert_event first_event (insert_endpoint endpoint empty.db)

abbrev second_db : Db
second_db = insert_event second_event (update_status (event_is "ev-1") (as_str processing) first_db)

abbrev third_db : Db
third_db = update_status (event_is "ev-1") (as_str delivered) second_db

arrivals : Writes empty.db first_db
unfolding insert_endpoint_breaks insert_endpoint insert_event_breaks count_where select_where as_str
arrivals =
    later (later none_yet (add_endpoint endpoint refl refl)) (add_event first_event refl refl refl)

in_turn : Writes empty.db third_db
unfolding insert_endpoint insert_event insert_event_breaks update_status count_where update_where
    select_where as_str
in_turn =
    later
      (later (later arrivals (set_status (event_is "ev-1") processing refl))
        (add_event second_event refl refl refl))
      (set_status (event_is "ev-1") delivered refl)

Writes-IsSound_example : IsSound third_db
Writes-IsSound_example = Writes-IsSound empty.db third_db in_turn empty-IsSound
