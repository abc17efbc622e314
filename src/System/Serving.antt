-- ===== src/System/Serving.antt =====
-- The routes of src/api/mod.rs and the operations of `System`: a request does to the database what the
-- operation behind its route does.
use aether_relay.Prelude.{
  if◌then◌else◌, String, ◌≡◌, refl, Bool, true, false, Option, none, some, List,
}
use aether_relay.System.{
  Operation, ingest_op, create_op, list_endpoints_op, list_dlq_op, delete_op, replay_op, perform,
}
use aether_relay.Api.Router.{
  Route, health_route, list_dlq_route, create_route, list_endpoints_route, metrics_route,
  ingest_route, replay_route, delete_route, Request, Extracted, taken, rejected, Axum, template,
  extracted, ingest_bytes, create_json, handle, create_router,
}
use aether_relay.Api.Metrics.{Exporter, track_metrics}
use aether_relay.Api.Target.{Parsers, CreateEndpointRequest}
use aether_relay.Config.{AppConfig}
use aether_relay.Store.{Outside, World, ◌>>=◌, now_secs}
use aether_relay.Crypto.Crates.{Crates}
use aether_relay.Crypto.Headers.{HeaderMap}
use aether_relay.Api.Health.{health_check}
use aether_relay.Api.Http.{HttpResponse}
use aether_relay.Models.{Bytes}

-- The operation that a request asks for; none, where it reaches no handler that uses the database.
abbrev pub asked : Axum → Route → Request → Option Operation
asked a health_route r = none
asked a metrics_route r = none
asked a list_dlq_route r = some (list_dlq_op r.headers)
asked a list_endpoints_route r = some (list_endpoints_op r.headers)
asked a (replay_route dlq_id) r = some (replay_op dlq_id r.headers)
asked a (delete_route endpoint_id) r = some (delete_op endpoint_id r.headers)
asked a create_route r = elim (a.json r) [
  | taken req ↦ some (create_op r.headers req)
  | rejected _ ↦ none
]
asked a (ingest_route endpoint_id) r = elim (a.bytes r) [
  | taken body ↦ some (ingest_op endpoint_id r.headers body)
  | rejected _ ↦ none
]

-- The parts of the world that outlive a request: the rows, what was sent, and the breakers.
pub record IsAlike (v w : World) : Type 0 where
  pub db : v.db ≡ w.db
  pub sent : v.sent ≡ w.sent
  pub breakers : v.breakers ≡ w.breakers

alike : (w : World) → IsAlike w w
alike w = record { db = refl; sent = refl; breakers = refl }

track_metrics-IsAlike :
    (path method : String) (next : World → HttpResponse × World) (v w : World)
    → IsAlike (next v).1 w
    → IsAlike (track_metrics path method next v).1 w
unfolding track_metrics
track_metrics-IsAlike path method next v w h = record {
  db = h.db;
  sent = h.sent;
  breakers = h.breakers;
}

module _ (o : Outside) (c : Crates) (json_object : List (String × String) → String)
    (parsers : Parsers) (a : Axum) (exporter : Exporter) (cfg : AppConfig) where
  abbrev pub performed : Option Operation → World → World
  performed none w = w
  performed (some op) w = perform o c json_object parsers cfg op w

  create-IsAlike :
      (x : Extracted CreateEndpointRequest) (headers : HeaderMap) (w : World)
      → IsAlike
          (extracted x (create_json o c json_object parsers a exporter cfg headers) w).1
          (performed (elim x [ taken req ↦ some (create_op headers req) | rejected _ ↦ none ]) w)
  unfolding perform
  create-IsAlike (taken req) headers w = alike _
  create-IsAlike (rejected res) headers w = alike w

  ingest-IsAlike :
      (x : Extracted Bytes) (endpoint_id : String) (headers : HeaderMap) (w : World)
      → IsAlike
          (extracted x
            (ingest_bytes o c json_object parsers a exporter cfg endpoint_id headers)
            w).1
          (performed
            (elim x [ taken body ↦ some (ingest_op endpoint_id headers body) | rejected _ ↦ none ])
            w)
  unfolding perform
  ingest-IsAlike (taken body) endpoint_id headers w = alike _
  ingest-IsAlike (rejected res) endpoint_id headers w = alike w

  handle-IsAlike :
      (route : Route) (r : Request) (w : World)
      → IsAlike
          (handle o c json_object parsers a exporter cfg route r w).1
          (performed (asked a route r) w)
  unfolding handle perform health_check now_secs ◌>>=◌
  handle-IsAlike health_route r w = record { db = refl; sent = refl; breakers = refl }
  handle-IsAlike metrics_route r w = alike w
  handle-IsAlike list_dlq_route r w = alike _
  handle-IsAlike list_endpoints_route r w = alike _
  handle-IsAlike (replay_route dlq_id) r w = alike _
  handle-IsAlike (delete_route endpoint_id) r w = alike _
  handle-IsAlike create_route r w = create-IsAlike (a.json r) r.headers w
  handle-IsAlike (ingest_route endpoint_id) r w = ingest-IsAlike (a.bytes r) endpoint_id r.headers w

  tracked-IsAlike :
      (metrics_enabled : Bool) (route : Route) (r : Request) (v w : World)
      → IsAlike (handle o c json_object parsers a exporter cfg route r v).1 w
      → IsAlike
          (if metrics_enabled
            then track_metrics
                (template route)
                r.method
                (handle o c json_object parsers a exporter cfg route r)
                v
            else handle o c json_object parsers a exporter cfg route r v).1
          w
  tracked-IsAlike true route r v w h = track_metrics-IsAlike (template route) r.method _ v w h
  tracked-IsAlike false route r v w h = h

  routed-IsAlike :
      (metrics_enabled : Bool) (r : Request) (w : World)
      → IsAlike
          (if metrics_enabled
            then if metrics_enabled
              then track_metrics
                  (template metrics_route)
                  r.method
                  (handle o c json_object parsers a exporter cfg metrics_route r)
                  w
              else handle o c json_object parsers a exporter cfg metrics_route r w
            else (a.fallback, w)).1
          w
  unfolding handle
  routed-IsAlike true r w = track_metrics-IsAlike (template metrics_route) r.method _ w w (alike w)
  routed-IsAlike false r w = alike w

  -- A request to a route changes the rows, what is sent and the breakers as the one operation
  -- behind the route does, and not at all where it reaches no handler that uses the database: for the
  -- health check, for the metrics, in or out of the table, and where axum rejects the body.
  pub create_router-perform :
      (route : Route) (r : Request) (w : World)
      → IsAlike
          (create_router o c json_object parsers a exporter cfg route r w).1
          (performed (asked a route r) w)
  unfolding create_router
  create_router-perform metrics_route r w = routed-IsAlike cfg.metrics.enabled r w
  create_router-perform route r w =
      tracked-IsAlike cfg.metrics.enabled route r w _ (handle-IsAlike route r w)
