-- ===== src/Api/Router/Gated.antt =====
-- Requests without a valid key.
use aether_relay.Prelude.{
  if◌then◌else◌, ℕ, ◌≤◌, String, ◌≡◌, refl, ◌≢◌, ◌⊎◌, inl, inr, Bool, true, false, List, arith,
}
use aether_relay.Store.{Outside, World, Act, ◌>>=◌, lift}
use aether_relay.Error.{AppError, config, Result, err, ok, into_response}
use aether_relay.Api.Router.{
  Route, health_route, list_dlq_route, create_route, list_endpoints_route, metrics_route,
  ingest_route, replay_route, delete_route, Request, Extracted, taken, rejected, Axum, template,
  extracted, is_routed, ingest_bytes, handle, create_router,
}
use aether_relay.Api.Endpoints.{create_endpoint, list_endpoints, delete_endpoint}
use aether_relay.Api.Http.{
  Body, nothing, created, endpoints, dead_letters, replayed, HttpResponse, of_error, of_result,
}
use aether_relay.Api.Ingest.{check_size, handle_ingest_inner, handle_ingest}
use aether_relay.Api.Auth.{verify_api_key}
use aether_relay.Crypto.Crates.{Crates}
use aether_relay.Api.Dlq.{list_dlq, replay_dlq}
use aether_relay.Api.Metrics.{Exporter, track_metrics}
use aether_relay.Models.{Bytes}
use aether_relay.Api.Target.{Parsers}
use aether_relay.Crypto.Headers.{HeaderMap}
use aether_relay.Config.{AppConfig}

into_response-ge : (e : AppError) → 400 ≤ (into_response e).status
unfolding into_response
into_response-ge (config _) = omega arith
into_response-ge _ = omega arith

-- The routes whose handlers ask for a key.
abbrev pub asks_key : Route → Bool
asks_key health_route = false
asks_key metrics_route = false
asks_key _ = true

-- axum answers a body that it rejects with a status of the 400s or 500s.
pub record RejectsAsError (a : Axum) : Type 0 where
  pub bytes : (r : Request) (res : HttpResponse) → a.bytes r ≡ rejected res → 400 ≤ res.status
  pub json : (r : Request) (res : HttpResponse) → a.json r ≡ rejected res → 400 ≤ res.status

-- An error is answered, and the world is as before but for the samples of the metrics.
pub record IsTurnedAway (w : World) (x : HttpResponse × World) : Type 0 where
  pub failed : 400 ≤ x.0.status
  pub db : x.1.db ≡ w.db
  pub sent : x.1.sent ≡ w.sent
  pub breakers : x.1.breakers ≡ w.breakers

turned_away : (w : World) (e : AppError) → IsTurnedAway w (of_error (into_response e), w)
turned_away w e = record { failed = into_response-ge e; db = refl; sent = refl; breakers = refl }

extracted-IsTurnedAway :
    {A : Type 0} (x : Extracted A) (next : A → World → HttpResponse × World) (w : World)
    → ((res : HttpResponse) → x ≡ rejected res → 400 ≤ res.status)
    → ((a : A) → IsTurnedAway w (next a w))
    → IsTurnedAway w (extracted x next w)
extracted-IsTurnedAway (taken a) next w rejects goes = goes a
extracted-IsTurnedAway (rejected res) next w rejects goes = record {
  failed = rejects res refl;
  db = refl;
  sent = refl;
  breakers = refl;
}

track_metrics-IsTurnedAway :
    (path method : String) (next : World → HttpResponse × World) (w : World)
    → IsTurnedAway w (next w)
    → IsTurnedAway w (track_metrics path method next w)
unfolding track_metrics
track_metrics-IsTurnedAway path method next w h = record {
  failed = h.failed;
  db = h.db;
  sent = h.sent;
  breakers = h.breakers;
}

-- A gate that fails ends the handler before its first step.
gate :
    {A : Type 0} (r : Result (Unit {0})) (e : AppError) (f : Unit {0} → Act A) (w : World)
    → r ≡ err e
    → (lift r >>= f) w ≡ (err e, w)
unfolding ◌>>=◌
gate r e f w h = rw h refl

of_refused :
    {A : Type 0} (status : ℕ) (body : A → Body) (e : AppError) (w : World) (x : Result A × World)
    → x ≡ (err e, w)
    → IsTurnedAway w (of_result status body x.0, x.1)
of_refused status body e w x h = rw h (turned_away w e)

checked :
    {A : Type 0} (r : Result (Unit {0})) (f : Unit {0} → Act A) (e : AppError) (w : World)
    → f tt w ≡ (err e, w)
    → (e' : AppError) × ((lift r >>= f) w ≡ (err e', w))
unfolding ◌>>=◌
checked (ok _) f e w h = (e, h)
checked (err e') f e w h = (e', refl)

asks_key-is_routed : (b : Bool) (route : Route) → asks_key route ≡ true → is_routed b route ≡ true
asks_key-is_routed b metrics_route h = cc
asks_key-is_routed b health_route h = refl
asks_key-is_routed b _ h = refl

Result-cases : (r : Result (Unit {0})) → (r ≡ ok tt) ⊎ ((e : AppError) × (r ≡ err e))
Result-cases (ok tt) = inl refl
Result-cases (err e) = inr (e, refl)

module _ (o : Outside) (c : Crates) (json_object : List (String × String) → String)
    (parsers : Parsers) (a : Axum) (exporter : Exporter) (cfg : AppConfig) where
  ingest_stops :
      (endpoint_id : String) (headers : HeaderMap) (body : Bytes) (w : World) (e : AppError)
      → verify_api_key headers cfg.auth.api_keys ≡ err e
      → (e' : AppError) × (handle_ingest_inner o c json_object cfg endpoint_id headers body w
          ≡ (err e', w))
  unfolding handle_ingest_inner
  ingest_stops endpoint_id headers body w e h =
      checked (check_size cfg.server.body_limit_bytes body) _ e w (gate _ e _ w h)

  ingest-IsTurnedAway :
      (endpoint_id : String) (headers : HeaderMap) (body : Bytes) (w : World) (e : AppError)
      → verify_api_key headers cfg.auth.api_keys ≡ err e
      → IsTurnedAway w
          (ingest_bytes o c json_object parsers a exporter cfg endpoint_id headers body w)
  unfolding handle_ingest
  ingest-IsTurnedAway endpoint_id headers body w e h =
      let (e', stops) = ingest_stops endpoint_id headers body w e h in
      rw stops (record { failed = into_response-ge e'; db = refl; sent = refl; breakers = refl })

  handle-IsTurnedAway :
      (route : Route) (r : Request) (w : World) (e : AppError)
      → RejectsAsError a
      → asks_key route ≡ true
      → verify_api_key r.headers cfg.auth.api_keys ≡ err e
      → IsTurnedAway w (handle o c json_object parsers a exporter cfg route r w)
  unfolding handle list_dlq replay_dlq create_endpoint list_endpoints delete_endpoint
  handle-IsTurnedAway health_route r w e ax asks h = cc
  handle-IsTurnedAway metrics_route r w e ax asks h = cc
  handle-IsTurnedAway list_dlq_route r w e ax asks h =
      of_refused 200 dead_letters e w _ (gate _ e _ w h)
  handle-IsTurnedAway list_endpoints_route r w e ax asks h =
      of_refused 200 endpoints e w _ (gate _ e _ w h)
  handle-IsTurnedAway (replay_route dlq_id) r w e ax asks h =
      of_refused 200 replayed e w _ (gate _ e _ w h)
  handle-IsTurnedAway (delete_route endpoint_id) r w e ax asks h =
      of_refused 204 (λ _. nothing) e w _ (gate _ e _ w h)
  handle-IsTurnedAway create_route r w e ax asks h =
      extracted-IsTurnedAway (a.json r) _ w (ax.json r)
        (λ req. of_refused 201 created e w _ (gate _ e _ w h))
  handle-IsTurnedAway (ingest_route endpoint_id) r w e ax asks h =
      extracted-IsTurnedAway (a.bytes r) _ w (ax.bytes r)
        (λ body. ingest-IsTurnedAway endpoint_id r.headers body w e h)

  tracked_or_not :
      (metrics_enabled : Bool) (route : Route) (r : Request) (w : World)
      → IsTurnedAway w (handle o c json_object parsers a exporter cfg route r w)
      → IsTurnedAway w (
          if metrics_enabled
          then track_metrics
              (template route)
              r.method
              (handle o c json_object parsers a exporter cfg route r)
              w
          else handle o c json_object parsers a exporter cfg route r w)
  tracked_or_not true route r w h = track_metrics-IsTurnedAway (template route) r.method _ w h
  tracked_or_not false route r w h = h

  -- A request to any route but `/health` and `/metrics` whose key is missing or wrong, where keys are
  -- configured, is answered with an error status, and changes no row, sends nothing and moves no breaker.
  -- The hypothesis on axum is that it answers a body that it rejects with an error status.
  pub create_router_turns_away :
      (route : Route) (r : Request) (w : World)
      → RejectsAsError a
      → asks_key route ≡ true
      → verify_api_key r.headers cfg.auth.api_keys ≢ ok tt
      → IsTurnedAway w (create_router o c json_object parsers a exporter cfg route r w)
  unfolding create_router
  create_router_turns_away route r w ax asks bad =
      elim (Result-cases (verify_api_key r.headers cfg.auth.api_keys)) [
        | inl good ↦ absurd (bad good)
        | inr (e, h) ↦ rw (asks_key-is_routed cfg.metrics.enabled route asks) (
            tracked_or_not cfg.metrics.enabled route r w
              (handle-IsTurnedAway route r w e ax asks h))
      ]
