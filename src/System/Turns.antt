-- ===== src/System/Turns.antt =====
-- The running gateway as its clients see it: requests to the routes of src/api/mod.rs, and passes of the
-- worker that src/main.rs spawns.
use aether_relay.Prelude.{
  All, ℕ, String, ◌≡◌, refl, sym, ◌∙◌, subst, Option, none, some, List, [], ◌∷◌,
}
use aether_relay.System.{Operation, ingest_op, create_op, work_op, perform, perform_all}
use aether_relay.Crypto.Crates.{Crates}
use aether_relay.System.Typed.{IsTyped, perform_all-IsTyped}
use aether_relay.System.Delivered.{Answered, perform_all-Answered}
use aether_relay.Api.Router.{
  Route, health_route, list_dlq_route, create_route, list_endpoints_route, metrics_route,
  ingest_route, replay_route, delete_route, Request, taken, rejected, Axum, create_router,
}
use aether_relay.Api.Metrics.{Exporter}
use aether_relay.Store.Rows.{Db}
use aether_relay.Config.{AppConfig}
use aether_relay.Store.{Outside, World}
use aether_relay.System.Exhausted.{Exhausted, perform_all-Exhausted}
use aether_relay.System.Operations.{IsAllowed}
use aether_relay.Api.Target.{Parsers}
use aether_relay.System.Serving.{asked, performed, create_router-perform}
use aether_relay.Runner.{from_app_config, run_dispatch_once}
use aether_relay.Models.{EventStatus}

-- What comes to the running gateway: a request, or the time for a pass of the worker.
pub data Turn : Type 0 where
  request_turn : Route → Request → Turn
  worker_turn : Turn

-- What the tables say of the events is so: their statuses can be read, one that is DELIVERED was answered,
-- and one that is FAILED has spent its attempts.
pub record IsTruthful (max_attempts : ℕ) (d : Db) : Type 0 where
  pub typed : IsTyped d
  pub answered : Answered d
  pub exhausted : Exhausted max_attempts d

abbrev listed : Option Operation → List Operation
listed none = []
listed (some op) = op ∷ []

-- No route asks for `transition_status`.
asked-IsAllowed :
    (P : EventStatus → Type 0) (a : Axum) (route : Route) (r : Request)
    → All (IsAllowed P) (listed (asked a route r))
asked-IsAllowed P a health_route r = tt
asked-IsAllowed P a metrics_route r = tt
asked-IsAllowed P a list_dlq_route r = (tt, tt)
asked-IsAllowed P a list_endpoints_route r = (tt, tt)
asked-IsAllowed P a (replay_route dlq_id) r = (tt, tt)
asked-IsAllowed P a (delete_route endpoint_id) r = (tt, tt)
asked-IsAllowed P a create_route r =
    elim (a.json r)
      as (λ x.
        All (IsAllowed P)
          (listed (elim x [ taken req ↦ some (create_op r.headers req) | rejected _ ↦ none ]))) [
            | taken req ↦ (tt, tt)
            | rejected _ ↦ tt
          ]
asked-IsAllowed P a (ingest_route endpoint_id) r =
    elim (a.bytes r)
      as (λ x. All (IsAllowed P) (
        listed (elim x [
          | taken body ↦ some (ingest_op endpoint_id r.headers body)
          | rejected _ ↦ none
        ]))) [ taken body ↦ (tt, tt) | rejected _ ↦ tt ]

module _ (o : Outside) (c : Crates) (json_object : List (String × String) → String)
    (parsers : Parsers) (a : Axum) (exporter : Exporter) (cfg : AppConfig) where
  pub take_turn : Turn → World → World
  take_turn (request_turn route r) w =
      (create_router o c json_object parsers a exporter cfg route r w).1
  take_turn worker_turn w = (run_dispatch_once o (from_app_config cfg) w).1

  pub take_turns : List Turn → World → World
  unfolding take_turn
  take_turns [] w = w
  take_turns (turn ∷ turns) w = take_turns turns (take_turn turn w)

  -- The operations that a turn stands for.
  abbrev ops_of : Turn → List Operation
  ops_of (request_turn route r) = listed (asked a route r)
  ops_of worker_turn = work_op ∷ []

  ops_of-IsAllowed : (P : EventStatus → Type 0) (turn : Turn) → All (IsAllowed P) (ops_of turn)
  ops_of-IsAllowed P (request_turn route r) = asked-IsAllowed P a route r
  ops_of-IsAllowed P worker_turn = (tt, tt)

  all-performed :
      (op : Option Operation) (w : World)
      → (perform_all o c json_object parsers cfg (listed op) w).db
        ≡ (performed o c json_object parsers a exporter cfg op w).db
  unfolding perform_all
  all-performed none w = refl
  all-performed (some op) w = refl

  all-take_turn :
      (turn : Turn) (w : World)
      → (perform_all o c json_object parsers cfg (ops_of turn) w).db ≡ (take_turn turn w).db
  unfolding take_turn perform_all perform
  all-take_turn (request_turn route r) w =
      all-performed (asked a route r) w
      ∙ sym (create_router-perform o c json_object parsers a exporter cfg route r w).db
  all-take_turn worker_turn w = refl

  abbrev most : ℕ
  most = (from_app_config cfg).max_attempts

  turn-IsTruthful :
      (turn : Turn) (w : World) → IsTruthful most w.db → IsTruthful most (take_turn turn w).db
  turn-IsTruthful turn w h = subst (IsTruthful most) (all-take_turn turn w) record {
    typed = perform_all-IsTyped o c json_object parsers cfg (ops_of turn) w h.typed;
    answered =
        perform_all-Answered o c json_object parsers cfg (ops_of turn) w (ops_of-IsAllowed _ turn)
          h.answered;
    exhausted =
        perform_all-Exhausted o c json_object parsers cfg (ops_of turn) w (ops_of-IsAllowed _ turn)
          h.exhausted;
  }

  -- Clients and the worker cannot make the tables lie: if every status can be read, every DELIVERED event has
  -- a recorded attempt with a status from 200 to 299, every FAILED one has at least `max_attempts` recorded
  -- attempts, and keys and references hold, then so it is after any requests to the routes, whatever their
  -- keys, headers and bodies, and any passes of the worker between them, whatever calls fail and whatever is
  -- replied. No operation is left out here: `transition_status` stands behind no route.
  pub take_turns-IsTruthful :
      (turns : List Turn) (w : World)
      → IsTruthful most w.db
      → IsTruthful most (take_turns turns w).db
  unfolding take_turns
  take_turns-IsTruthful [] w h = h
  take_turns-IsTruthful (turn ∷ turns) w h =
      take_turns-IsTruthful turns (take_turn turn w) (turn-IsTruthful turn w h)
