-- ===== src/Api/Refusal.antt =====
-- A webhook that is refused leaves the database alone.
use aether_relay.Prelude.{String, ◌≡◌, refl, ◌∙◌, List, ◌∷◌}
use aether_relay.Error.{AppError, Result, err, ok, status_code, ErrorResponse, into_response}
use aether_relay.Config.{AppConfig}
use aether_relay.Models.{Bytes}
use aether_relay.Store.{Outside, Metric, ingest_total, World, Act, call, query}
use aether_relay.Store.Keeps.{Keeps-bind, Keeps-call, Keeps-now_secs, Keeps-query}
use aether_relay.Store.Still.{Still, IsAtomic, Still-lift, bind-IsAtomic, bind_pure-IsAtomic}
use aether_relay.Idempotency.{accept_event}
use aether_relay.Idempotency.Acceptance.{accept_event_atomic}
use aether_relay.Crypto.Headers.{HeaderMap}
use aether_relay.Crypto.Crates.{Crates}
use aether_relay.Error.Laws.{status_code-eq-status}
use aether_relay.Api.Steps.{emitted-db}
use aether_relay.Api.Ingest.{
  refused, count_error, counted, record_ingest_metrics, answer, find_endpoint, store_event,
  verify_and_store, handle_ingest_inner, handle_ingest,
}

module _ {A : Type 0} where
  count_error-db : (r : Result A) (w : World) → (count_error r w).1.db ≡ w.db
  count_error-db (ok a) w = refl
  count_error-db (err e) w = refl

  pub Still-counted : (m : Act A) → Still m → Still (counted m)
  Still-counted m still P = record {
    from = λ w h. rw (count_error-db (m w).0 (m w).1) ((still P).from w h);
  }

accept_event-IsAtomic :
    (o : Outside) (endpoint_id key : String) (body : Bytes) (headers : String)
    → IsAtomic (accept_event o endpoint_id key body headers)
accept_event-IsAtomic o endpoint_id key body headers = record {
  undone = λ w e h. accept_event_atomic o endpoint_id key body headers w e h;
}

refused_inv :
    (r : Result (String × String)) (x : ErrorResponse)
    → answer r ≡ refused x
    → (e : AppError) × (r ≡ err e) × (x ≡ into_response e)
refused_inv (ok (name, event_id)) x h = cc
refused_inv (err e) x h = (e, refl, cc)

recorded :
    (endpoint_id : String) (r : Result (String × String)) (e : AppError) (w : World)
    → r ≡ err e
    → (record_ingest_metrics endpoint_id r w).1.metrics
      ≡ ingest_total endpoint_id "unknown" (status_code e) ∷ w.metrics
recorded endpoint_id r e w h = rw h refl

module _ (o : Outside) where
  pub Still-find_endpoint : (endpoint_id : String) → Still (find_endpoint o endpoint_id)
  unfolding find_endpoint
  Still-find_endpoint endpoint_id P =
      Keeps-bind _ _ (Still-counted (call o) (λ Q. Keeps-call o) P) (λ _.
        Keeps-bind _ _ (Still-counted (query o _) (λ Q. Keeps-query o _) P)
          (λ found. Still-lift _ P))

  module _ (c : Crates) (json_object : List (String × String) → String) (cfg : AppConfig) where
    handle_ingest_inner-IsAtomic :
        (endpoint_id : String) (headers : HeaderMap) (body : Bytes)
        → IsAtomic (handle_ingest_inner o c json_object cfg endpoint_id headers body)
    unfolding handle_ingest_inner verify_and_store store_event
    handle_ingest_inner-IsAtomic endpoint_id headers body = bind-IsAtomic _ _ (Still-lift _) (λ _.
        bind-IsAtomic _ _ (Still-lift _) (λ _. bind-IsAtomic _ _ (Still-lift _) (λ key.
          bind-IsAtomic _ _ (Still-find_endpoint endpoint_id) (λ endpoint.
            bind-IsAtomic _ _ (Still-lift _) (λ provider.
              bind-IsAtomic _ _ (λ P. Keeps-now_secs o)
                (λ now. bind-IsAtomic _ _ (Still-lift _) (λ _.
                  bind-IsAtomic _ _ (Still-counted (call o) (λ Q. Keeps-call o)) (λ _.
                    bind_pure-IsAtomic _ (λ id. (endpoint.provider, id))
                      (accept_event-IsAtomic o endpoint_id key body _)))))))))

    -- A webhook that is refused, by a check or by a failing database call, leaves the database as it was,
    -- and the last sample is an ingest of its endpoint with the status of the answer.
    pub handle_ingest_refuses :
        (endpoint_id : String) (headers : HeaderMap) (body : Bytes) (w : World) (x : ErrorResponse)
        → (handle_ingest o c json_object cfg endpoint_id headers body w).0 ≡ refused x
        → ((handle_ingest o c json_object cfg endpoint_id headers body w).1.db ≡ w.db)
          × ((earlier : List Metric) × ((handle_ingest o c json_object cfg endpoint_id headers body
                  w).1.metrics
                ≡ ingest_total endpoint_id "unknown" x.status ∷ earlier))
    unfolding handle_ingest
    handle_ingest_refuses endpoint_id headers body w x h =
        let inner = handle_ingest_inner o c json_object cfg endpoint_id headers body in
        let (e, fails, answered) = refused_inv (inner w).0 x h in
        (
          emitted-db endpoint_id (inner w).0 (inner w).1
              ∙ (handle_ingest_inner-IsAtomic endpoint_id headers body).undone w e fails,
          (
            (inner w).1.metrics,
            rw (answered, ← status_code-eq-status e)
                (recorded endpoint_id (inner w).0 e (inner w).1 fails),
          ),
        )
