-- ===== src/Api/Gate.antt =====
-- What stands between a request and the event store: the checks of src/api/ingest.rs.
use aether_relay.Prelude.{
  length, ℕ, ◌+◌, ◌≤◌, String, ◌≡◌, sym, ap, ◌∙◌, Option, none, some, List, [], arith,
}
use aether_relay.Store.{Outside, World, pure, lift}
use aether_relay.Store.Runs.{tick, Runs, Runs-of_ok, world_of_Runs, bind_inv}
use aether_relay.Error.{AppError, Result, err, ok}
use aether_relay.Models.{Bytes, EndpointRecord}
use aether_relay.Api.Steps.{
  lift_bind, counted-call_bind, counted-query_bind, now_secs_bind, emitted-db,
}
use aether_relay.Api.Ingest.{
  idempotency_key_of, kept_headers, check_size, accepted, answer, find_endpoint, store_event,
  verify_and_store, handle_ingest_inner, handle_ingest,
}
use aether_relay.Store.Schema.{endpoint_is, event_has_key, insert_event}
use aether_relay.Store.Rows.{Db}
use aether_relay.Crypto.Headers.{HeaderMap}
use aether_relay.Store.Tables.{select_where}
use aether_relay.Config.{AppConfig}
use aether_relay.Idempotency.{new_event, accept_event}
use aether_relay.Crypto.Crates.{Crates}
use aether_relay.Error.Try.{ok_or}
use aether_relay.Crypto.Signature.{Provider, provider_from_str, verify_signature}
use aether_relay.Idempotency.Acceptance.{accept_event_stores}
use aether_relay.Api.Auth.{verify_api_key}

check_size_le : (limit : ℕ) (body : Bytes) → check_size limit body ≡ ok tt → length body ≤ limit
check_size_le limit body h = ground arith

answer_inv :
    (r : Result (String × String)) (id : String)
    → answer r ≡ accepted id
    → (name : String) × (r ≡ ok (name, id))
answer_inv (ok (name, event_id)) id h = (name, ground arith)
answer_inv (err e) id h = cc

module _ (o : Outside) where
  found_inv :
      (e : AppError) (found : Option EndpointRecord) (w w' : World) (endpoint : EndpointRecord)
      → Runs (lift (ok_or e found)) w endpoint w'
      → (found ≡ some endpoint) × (w' ≡ w)
  found_inv e none w w' endpoint h = cc
  found_inv e (some x) w w' endpoint h = (cc, cc)

  find_endpoint_inv :
      (endpoint_id : String) (w w' : World) (e : EndpointRecord)
      → Runs (find_endpoint o endpoint_id) w e w'
      → (select_where (endpoint_is endpoint_id) w.db.endpoints ≡ some e) × (w' ≡ tick (tick w))
  unfolding find_endpoint
  find_endpoint_inv endpoint_id w w' e h = found_inv _ _ (tick (tick w)) w' e (
      counted-query_bind o (λ d. select_where (endpoint_is endpoint_id) d.endpoints) _ (tick w) w'
        (counted-call_bind o _ w w' h))

  module _ (c : Crates) (json_object : List (String × String) → String) where
    abbrev StoredAs : String → String → HeaderMap → Bytes → World → String → Db → Type 0
    StoredAs endpoint_id key headers body w id after =
        (select_where (event_has_key endpoint_id key) w.db.events ≡ none)
        × (after
            ≡ insert_event
                (new_event id endpoint_id key body (json_object (kept_headers headers []))
                  (o.time w.times))
                w.db)

    accept_inv :
        (endpoint_id key : String) (headers : HeaderMap) (body : Bytes) (w w' : World) (id : String)
        → Runs (accept_event o endpoint_id key body (json_object (kept_headers headers []))) w id w'
        → StoredAs endpoint_id key headers body w id w'.db
    accept_inv endpoint_id key headers body w w' id h =
        let text = json_object (kept_headers headers []) in
        let (fresh, _, written) =
          accept_event_stores o endpoint_id key body text w id
            (ap (λ (p : Result String × World). p.0) h) in
        (
          fresh,
          sym (
                ap (λ (v : World). v.db)
                  (world_of_Runs (accept_event o endpoint_id key body text) w w' h))
              ∙ written,
        )

    returned_id :
        (provider_str provider event_id id : String) (v w' : World)
        → Runs {A = String × String} (pure (provider_str, event_id)) v (provider, id) w'
        → (id ≡ event_id) × (w' ≡ v)
    returned_id provider_str provider event_id id v w' h = (cc, cc)

    store_event_inv :
        (cfg : AppConfig) (provider_str endpoint_id key : String) (headers : HeaderMap)
        (body : Bytes) (w w' : World) (provider id : String)
        → Runs
            (store_event o c json_object cfg provider_str endpoint_id key headers body)
            w
            (provider, id)
            w'
        → StoredAs endpoint_id key headers body w id w'.db
    unfolding store_event
    store_event_inv cfg provider_str endpoint_id key headers body w w' provider id h =
        let text = json_object (kept_headers headers []) in
        let (event_id, v, run, rest) =
          bind_inv (accept_event o endpoint_id key body text) _ (tick w) w'
            (counted-call_bind o _ w w' h) in
        let (same_id, same_world) = returned_id provider_str provider event_id id v w' rest in
        rw (same_id, same_world) (accept_inv endpoint_id key headers body (tick w) v event_id run)

    module _ (cfg : AppConfig) where
      -- The request passed every check in the world `w`, and its event was stored.
      pub record Admitted (endpoint_id : String) (headers : HeaderMap) (body : Bytes) (w : World)
          (id : String) (after : Db) : Type 0 where
        pub small : length body ≤ cfg.server.body_limit_bytes
        pub authorized : verify_api_key headers cfg.auth.api_keys ≡ ok tt
        pub key : String
        pub keyed : idempotency_key_of headers ≡ ok key
        pub endpoint : EndpointRecord
        pub known : select_where (endpoint_is endpoint_id) w.db.endpoints ≡ some endpoint
        pub provider : Provider
        pub named : provider_from_str endpoint.provider ≡ ok provider
        pub signed :
            verify_signature c provider endpoint.secret body headers (o.time w.times) ≡ ok tt
        pub fresh : select_where (event_has_key endpoint_id key) w.db.events ≡ none
        pub stored :
            after
            ≡ insert_event
                (new_event id endpoint_id key body
                  (json_object (kept_headers headers []))
                  (o.time (w.times + 1)))
                w.db

      verify_and_store_inv :
          (endpoint : EndpointRecord) (endpoint_id key : String) (headers : HeaderMap)
          (body : Bytes) (w w' : World) (name id : String)
          → Runs
              (verify_and_store o c json_object cfg endpoint endpoint_id key headers body)
              w
              (name, id)
              w'
          → (provider : Provider) × (provider_from_str endpoint.provider ≡ ok provider)
            × (verify_signature c provider endpoint.secret body headers (o.time w.times) ≡ ok tt)
            × StoredAs endpoint_id key headers body (record w { times = w.times + 1 }) id w'.db
      unfolding verify_and_store
      verify_and_store_inv endpoint endpoint_id key headers body w w' name id h =
          let (provider, named, h1) = lift_bind _ _ w w' h in
          let (_, signed, h2) =
            lift_bind _ _ (record w { times = w.times + 1 }) w' (now_secs_bind o _ w w' h1) in
          (
            provider,
            named,
            signed,
            store_event_inv cfg endpoint.provider endpoint_id key headers body
                (record w { times = w.times + 1 }) w' name id h2,
          )

      handle_ingest_inner_inv :
          (endpoint_id : String) (headers : HeaderMap) (body : Bytes) (w w' : World)
          (name id : String)
          → Runs (handle_ingest_inner o c json_object cfg endpoint_id headers body) w (name, id) w'
          → Admitted endpoint_id headers body w id w'.db
      unfolding handle_ingest_inner
      handle_ingest_inner_inv endpoint_id headers body w w' name id h =
          let (_, small, h1) = lift_bind _ _ w w' h in
          let (_, authorized, h2) = lift_bind _ _ w w' h1 in
          let (key, keyed, h3) = lift_bind _ _ w w' h2 in
          let (endpoint, v, found, h4) = bind_inv (find_endpoint o endpoint_id) _ w w' h3 in
          let (known, after) = find_endpoint_inv endpoint_id w v endpoint found in
          let (provider, named, signed, stored_as) =
            verify_and_store_inv endpoint endpoint_id key headers body (tick (tick w)) w' name id
              (rw after at h4) in
          record {
            small = check_size_le cfg.server.body_limit_bytes body small;
            authorized = authorized;
            key = key;
            keyed = keyed;
            endpoint = endpoint;
            known = known;
            provider = provider;
            named = named;
            signed = signed;
            fresh = stored_as.0;
            stored = stored_as.1;
          }

      -- A webhook that is answered with 202 has passed every check: its size is within the limit, its API
      -- key and its idempotency key are valid, its endpoint exists, its signature fits the endpoint's secret,
      -- and the key is new. Exactly its event is stored, as it came, under the identifier in the answer.
      pub handle_ingest_accepts :
          (endpoint_id : String) (headers : HeaderMap) (body : Bytes) (w : World) (id : String)
          → (handle_ingest o c json_object cfg endpoint_id headers body w).0 ≡ accepted id
          → Admitted endpoint_id headers body w id
              (handle_ingest o c json_object cfg endpoint_id headers body w).1.db
      unfolding handle_ingest
      handle_ingest_accepts endpoint_id headers body w id h =
          let inner = handle_ingest_inner o c json_object cfg endpoint_id headers body in
          let (name, returned) = answer_inv (inner w).0 id h in
          rw (emitted-db endpoint_id (inner w).0 (inner w).1) (
            handle_ingest_inner_inv endpoint_id headers body w (inner w).1 name id
              (Runs-of_ok inner w returned))
