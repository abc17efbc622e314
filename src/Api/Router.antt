-- ===== src/Api/Router.antt =====
-- src/api/mod.rs: the routes, and what a request to one of them does. Which route a request reaches, and
-- the answer where there is none, are axum's, and so is the extraction of a body.
pub mod Gated
use aether_relay.Prelude.{if◌then◌else◌, String, Bool, true, List}
use aether_relay.Config.{AppConfig}
use aether_relay.Models.{Bytes}
use aether_relay.Store.{Outside, World}
use aether_relay.Crypto.Headers.{HeaderMap}
use aether_relay.Crypto.Crates.{Crates}
use aether_relay.Api.Target.{Parsers, CreateEndpointRequest}
use aether_relay.Api.Ingest.{handle_ingest}
use aether_relay.Api.Dlq.{list_dlq, replay_dlq}
use aether_relay.Api.Endpoints.{create_endpoint, list_endpoints, delete_endpoint}
use aether_relay.Api.Health.{health_check}
use aether_relay.Api.Metrics.{Exporter, metrics_endpoint, track_metrics}
use aether_relay.Api.Http.{
  nothing, health, created, endpoints, dead_letters, replayed, HttpResponse, of_result, of_ingest,
}

-- A line of the table with its path parameter.
pub data Route : Type 0 where
  health_route list_dlq_route create_route list_endpoints_route metrics_route : Route
  ingest_route replay_route delete_route : String → Route

pub record Request : Type 0 where
  pub method : String
  pub headers : HeaderMap
  pub body : Bytes

-- What an extractor gives: a value, or the response to a request that it rejects.
pub data Extracted (A : Type 0) : Type 0 where
  taken : A → Extracted A
  rejected : HttpResponse → Extracted A

-- axum: the extractors `Bytes` and `Json`, and the answer where no route fits.
pub record Axum : Type 0 where
  pub bytes : Request → Extracted Bytes
  pub json : Request → Extracted CreateEndpointRequest
  pub fallback : HttpResponse

-- `MatchedPath`
abbrev pub template : Route → String
template health_route = "/health"
template (ingest_route _) = "/v1/ingest/{endpoint_id}"
template list_dlq_route = "/v1/dlq"
template (replay_route _) = "/v1/dlq/{id}/replay"
template create_route = "/v1/endpoints"
template list_endpoints_route = "/v1/endpoints"
template (delete_route _) = "/v1/endpoints/{id}"
template metrics_route = "/metrics"

abbrev pub extracted :
    {A : Type 0} → Extracted A → (A → World → HttpResponse × World) → World → HttpResponse × World
extracted (taken a) next w = next a w
extracted (rejected res) next w = (res, w)

-- Every route but `/metrics` is always in the table.
abbrev pub is_routed : Bool → Route → Bool
is_routed metrics_enabled metrics_route = metrics_enabled
is_routed metrics_enabled _ = true

module _ (o : Outside) (c : Crates) (json_object : List (String × String) → String)
    (parsers : Parsers) (a : Axum) (exporter : Exporter) (cfg : AppConfig) where
  abbrev pub ingest_bytes : String → HeaderMap → Bytes → World → HttpResponse × World
  ingest_bytes endpoint_id headers body w =
      let (res, w') = handle_ingest o c json_object cfg endpoint_id headers body w in
      (of_ingest res, w')

  abbrev pub create_json : HeaderMap → CreateEndpointRequest → World → HttpResponse × World
  create_json headers req w =
      let (result, w') = create_endpoint o cfg parsers headers req w in
      (of_result 201 created result, w')

  unfoldable pub handle : Route → Request → World → HttpResponse × World
  handle health_route r w = let (result, w') = health_check o w in (of_result 200 health result, w')
  handle (ingest_route endpoint_id) r w =
      extracted (a.bytes r) (ingest_bytes endpoint_id r.headers) w
  handle list_dlq_route r w =
      let (result, w') = list_dlq o cfg r.headers w in (of_result 200 dead_letters result, w')
  handle (replay_route dlq_id) r w =
      let (result, w') = replay_dlq o cfg dlq_id r.headers w in (of_result 200 replayed result, w')
  handle create_route r w = extracted (a.json r) (create_json r.headers) w
  handle list_endpoints_route r w =
      let (result, w') = list_endpoints o cfg r.headers w in (of_result 200 endpoints result, w')
  handle (delete_route endpoint_id) r w =
      let (result, w') = delete_endpoint o cfg endpoint_id r.headers w in
      (of_result 204 (λ _. nothing) result, w')
  handle metrics_route r w = (metrics_endpoint exporter w.metrics, w)

  -- With metrics, `route_layer` puts `track_metrics` around the handlers.
  unfoldable pub create_router : Route → Request → World → HttpResponse × World
  unfolding track_metrics
  create_router route r w =
      let metrics_enabled = cfg.metrics.enabled in
      if is_routed metrics_enabled route
      then if metrics_enabled
        then track_metrics (template route) r.method (handle route r) w
        else handle route r w
      else (a.fallback, w)
