-- ===== src/Api/Ingest.antt =====
-- src/api/ingest.rs: a webhook is checked, and stored only after all checks. The reading of the clock
-- by a signature scheme is made whether or not the scheme uses it, and the latency histogram is left
-- out.
use aether_relay.Prelude.{
  ltb, leb, ◌=?◌, if◌then◌else◌, length, ℕ, String, ◌+++◌, Bool, not, ◌&&◌, Option, none, some,
  List, [], ◌∷◌,
}
use aether_relay.Prelude.Str.{as_bytes, is_empty}
use aether_relay.Error.{
  AppError, payload_too_large, bad_request, not_found, Result, err, ok, status_code, ErrorResponse,
  into_response,
}
use aether_relay.Models.{Bytes, EndpointRecord}
use aether_relay.Store.{
  Outside, ingest_total, sqlite_write_errors, World, Act, pure, lift, emit, call, query, now_secs,
  ◌>>=◌, ◌>>◌,
}
use aether_relay.Error.Try.{ok_or}
use aether_relay.Crypto.Headers.{HeaderMap, get, to_str}
use aether_relay.Store.Tables.{select_where}
use aether_relay.Crypto.Signature.{provider_from_str, verify_signature}
use aether_relay.Store.Schema.{endpoint_is}
use aether_relay.Crypto.Crates.{Crates}
use aether_relay.Api.Auth.{verify_api_key}
use aether_relay.Config.{AppConfig}
use aether_relay.Idempotency.{accept_event}

abbrev pub max_idempotency_key_len : ℕ
max_idempotency_key_len = 255

abbrev pub missing_idempotency_key : AppError
missing_idempotency_key =
    bad_request "Missing or invalid Idempotency-Key header (must be 1..=255 characters)"

abbrev fits_key : String → Bool
fits_key v = not (is_empty v) && leb (length (as_bytes v)) max_idempotency_key_len

abbrev filter_key : Option String → Option String
filter_key none = none
filter_key (some v) = if fits_key v then some v else none

unfoldable pub idempotency_key_of : HeaderMap → Result String
idempotency_key_of headers =
    ok_or missing_idempotency_key (filter_key (to_str (get "idempotency-key" headers)))

-- `header_map.insert`: a later value of a name takes the place of an earlier one.
insert_header : String → String → List (String × String) → List (String × String)
insert_header name value [] = (name, value) ∷ []
insert_header name value ((n, v) ∷ kept) =
    let rest = insert_header name value kept in
    if n =? name then (name, value) ∷ kept else (n, v) ∷ rest

abbrev insert_text : String → Option String → List (String × String) → List (String × String)
insert_text name none kept = kept
insert_text name (some value) kept = insert_header name value kept

-- The headers that are texts, with the last value of each name.
unfoldable pub kept_headers : HeaderMap → List (String × String) → List (String × String)
unfolding insert_header
kept_headers [] kept = kept
kept_headers ((name, value) ∷ headers) kept = kept_headers headers (insert_text name value kept)

abbrev pub check_size : ℕ → Bytes → Result (Unit {0})
check_size limit body = if ltb limit (length body) then err payload_too_large else ok tt

-- The response of the handler.
pub data Response : Type 0 where
  accepted : String → Response
  refused : ErrorResponse → Response

-- The counter of database errors goes up with an error.
abbrev pub count_error : {A : Type 0} → Result A → Act A
count_error (ok a) w = (ok a, w)
count_error (err e) w = (err e, record w { metrics = sqlite_write_errors ∷ w.metrics })

abbrev pub counted : {A : Type 0} → Act A → Act A
counted m w = let (r, w') = m w in count_error r w'

-- `provider`, the identifier of the event; the status is 202.
abbrev pub record_ingest_metrics : String → Result (String × String) → Act (Unit {0})
record_ingest_metrics endpoint_id (ok (provider, _)) = emit (ingest_total endpoint_id provider 202)
record_ingest_metrics endpoint_id (err e) =
    emit (ingest_total endpoint_id "unknown" (status_code e))

abbrev pub answer : Result (String × String) → Response
answer (ok (_, event_id)) = accepted event_id
answer (err e) = refused (into_response e)

module _ (o : Outside) where
  unfoldable pub find_endpoint : String → Act EndpointRecord
  find_endpoint endpoint_id = do
    counted (call o)
    found ← counted (query o (λ d. select_where (endpoint_is endpoint_id) d.endpoints))
    lift (ok_or (not_found ("Endpoint " +++ endpoint_id +++ " not found")) found)

  -- `json_object` prints the members of a `serde_json::Map`.
  module _ (c : Crates) (json_object : List (String × String) → String) (cfg : AppConfig) where
    -- What follows the signature check: `accept_event` on a second connection.
    unfoldable pub store_event :
        String → String → String → HeaderMap → Bytes → Act (String × String)
    store_event provider_str endpoint_id idempotency_key headers body = do
      counted (call o)
      event_id ←
          accept_event o endpoint_id idempotency_key body (json_object (kept_headers headers []))
      pure (provider_str, event_id)

    -- What follows the lookup of the endpoint.
    unfoldable pub verify_and_store :
        EndpointRecord → String → String → HeaderMap → Bytes → Act (String × String)
    verify_and_store endpoint endpoint_id idempotency_key headers body = do
      provider ← lift (provider_from_str endpoint.provider)
      now ← now_secs o
      lift (verify_signature c provider endpoint.secret body headers now)
      store_event endpoint.provider endpoint_id idempotency_key headers body

    unfoldable pub handle_ingest_inner : String → HeaderMap → Bytes → Act (String × String)
    handle_ingest_inner endpoint_id headers body = do
      lift (check_size cfg.server.body_limit_bytes body)
      lift (verify_api_key headers cfg.auth.api_keys)
      idempotency_key ← lift (idempotency_key_of headers)
      endpoint ← find_endpoint endpoint_id
      verify_and_store endpoint endpoint_id idempotency_key headers body

    unfoldable pub handle_ingest : String → HeaderMap → Bytes → World → Response × World
    handle_ingest endpoint_id headers body w =
        let (result, w') = handle_ingest_inner endpoint_id headers body w in
        let (_, w'') = record_ingest_metrics endpoint_id result w' in (answer result, w'')
