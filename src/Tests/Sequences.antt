-- ===== src/Tests/Sequences.antt =====
-- A sequence of operations on an empty database.
use aether_relay.Prelude.{All, refl, ◌≢◌, List, [], ◌∷◌, arith}
use aether_relay.Store.Tables.{count_where}
use aether_relay.System.{Operation, ingest_op, create_op, delete_op, work_op, perform_all}
use aether_relay.Runner.{from_app_config}
use aether_relay.System.Exhausted.{Exhausted, perform_all-Exhausted}
use aether_relay.System.Sound.{IsSound}
use aether_relay.System.Integrity.{perform_all-IsSound}
use aether_relay.Models.{EventStatus, received, delivered, failed, from_str}
use aether_relay.System.Typed.{IsTyped, perform_all-IsTyped}
use aether_relay.Store.{response, World}
use aether_relay.Tests.Fixture.{outside, failing, world_of, start}
use aether_relay.Tests.Requests.{crates, body, headers}
use aether_relay.Tests.Handlers.{cfg, json, parsers, request}
use aether_relay.System.Delivered.{Answered, perform_all-Answered}
use aether_relay.System.Operations.{IsAllowed}

abbrev pub empty : World
empty = world_of (record { endpoints = []; events = []; attempts = []; dead_letters = [] })

pub empty-IsSound : IsSound empty.db
unfolding count_where
empty-IsSound = record {
  unique_keys = λ e k. omega arith;
  unique_ids = λ id. omega arith;
  of_endpoint = λ id h. refl;
  of_event = λ id h. refl;
  dead_of_event = λ id h. refl;
  one_dead_letter = λ id. omega arith;
}

-- An endpoint is created, a webhook is sent to it twice, the worker takes it up, and the endpoint is
-- deleted.
abbrev day : List Operation
day =
    create_op headers request
    ∷ ingest_op "id-0" headers body
    ∷ ingest_op "id-0" headers body
    ∷ work_op
    ∷ delete_op "id-0" headers
    ∷ []

pub start-IsTyped : IsTyped start.db
unfolding from_str
start-IsTyped = ((received, refl), ((received, refl), tt))

perform_all-IsSound_example : IsSound (perform_all failing crates json parsers cfg day empty).db
perform_all-IsSound_example =
    perform_all-IsSound failing crates json parsers cfg day empty empty-IsSound

-- The same operations on the small relay, whose two events wait.
perform_all-IsTyped_example : IsTyped (perform_all failing crates json parsers cfg day start).db
perform_all-IsTyped_example =
    perform_all-IsTyped failing crates json parsers cfg day start start-IsTyped

pub nothing_delivered : Answered empty.db
unfolding count_where
nothing_delivered = record { sound = empty-IsSound; evidence = λ id h. absurd (omega arith) }

pub nothing_failed : Exhausted (from_app_config cfg).max_attempts empty.db
unfolding count_where
nothing_failed = record { sound = empty-IsSound; evidence = λ id h. absurd (omega arith) }

no_transition : (st : EventStatus) → All (IsAllowed (λ to. to ≢ st)) day
no_transition st = (tt, (tt, (tt, (tt, (tt, tt)))))

-- Here the downstream answers 200, and the event is delivered before its endpoint is deleted.
perform_all-Answered_example :
    Answered (perform_all (outside (response 200)) crates json parsers cfg day empty).db
perform_all-Answered_example =
    perform_all-Answered (outside (response 200)) crates json parsers cfg day empty
      (no_transition delivered) nothing_delivered

-- Here it answers 503.
perform_all-Exhausted_example :
    Exhausted
      (from_app_config cfg).max_attempts
      (perform_all failing crates json parsers cfg day empty).db
perform_all-Exhausted_example =
    perform_all-Exhausted failing crates json parsers cfg day empty (no_transition failed)
      nothing_failed
