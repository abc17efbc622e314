-- ===== src/Api/Endpoints.antt =====
-- src/api/endpoints.rs: endpoints are created, listed and deleted.
use aether_relay.Prelude.{
  ltb, ◌=?◌, ℕ, String, ◌+++◌, Bool, true, false, ◌&&◌, ◌||◌, none, List, map,
}
use aether_relay.Prelude.Text.{decimal}
use aether_relay.Error.{AppError, conflict, not_found, Result, err, ok}
use aether_relay.Config.{AppConfig}
use aether_relay.Models.{EndpointRecord, EventRow}
use aether_relay.Store.{
  Outside, Act, pure, raise, lift, call, statement, query, transaction, now_secs, now_v7, ◌>>=◌,
  ◌>>◌,
}
use aether_relay.Store.Schema.{
  endpoint_is, event_of_endpoint, insert_endpoint_breaks, insert_endpoint, delete_endpoint_rows,
}
use aether_relay.Api.Target.{Parsers, CreateEndpointRequest, validate_new_endpoint}
use aether_relay.Store.Tables.{count_where, order_by_desc}
use aether_relay.Api.Auth.{verify_api_key}
use aether_relay.Crypto.Headers.{HeaderMap}

pub record EndpointResponse : Type 0 where
  pub id : String
  pub name : String
  pub provider : String
  pub target_url : String
  pub created_at : ℕ

abbrev pub endpoint_row : CreateEndpointRequest → String → ℕ → EndpointRecord
endpoint_row req id now = record {
  id = id;
  name = req.name;
  provider = req.provider;
  secret = req.secret;
  target_url = req.target_url;
  created_at = now;
}

-- All columns but the secret.
abbrev pub to_response : EndpointRecord → EndpointResponse
to_response e = record {
  id = e.id;
  name = e.name;
  provider = e.provider;
  target_url = e.target_url;
  created_at = e.created_at;
}

-- `status IN ('RECEIVED', 'PROCESSING')`
abbrev pub undelivered : String → EventRow → Bool
undelivered endpoint_id e =
    event_of_endpoint endpoint_id e && (e.status =? "RECEIVED" || e.status =? "PROCESSING")

module _ (o : Outside) (cfg : AppConfig) where
  abbrev pub create : CreateEndpointRequest → Act EndpointResponse
  create req = do
    call o
    id ← now_v7 o
    now ← now_secs o
    let row = endpoint_row req id now
    statement o (insert_endpoint_breaks row) (λ _. tt) (insert_endpoint row)
    pure (to_response row)

  unfoldable pub create_endpoint :
      Parsers → HeaderMap → CreateEndpointRequest → Act EndpointResponse
  create_endpoint p headers req = do
    lift (verify_api_key headers cfg.auth.api_keys)
    lift (validate_new_endpoint p req)
    create req

  unfoldable pub list_endpoints : HeaderMap → Act (List EndpointResponse)
  list_endpoints headers = do
    lift (verify_api_key headers cfg.auth.api_keys)
    call o
    query o (λ d. map to_response (order_by_desc (λ e. e.created_at) d.endpoints))

  abbrev pub still_pending : String → ℕ → AppError
  still_pending endpoint_id pending = conflict (
      "Endpoint "
      +++ endpoint_id
      +++ " still has "
      +++ decimal pending
      +++ " undelivered event(s); drain or replay them before deleting")

  abbrev pub delete_unless : Bool → String → ℕ → Act Bool
  delete_unless true endpoint_id pending = raise (still_pending endpoint_id pending)
  delete_unless false endpoint_id pending = do
    rows ←
        statement o (λ _. none) (λ d. count_where (endpoint_is endpoint_id) d.endpoints)
          (delete_endpoint_rows endpoint_id)
    pure (ltb 0 rows)

  unfoldable pub delete_if_drained : String → Act Bool
  delete_if_drained endpoint_id = transaction o do
    pending ← query o (λ d. count_where (undelivered endpoint_id) d.events)
    delete_unless (ltb 0 pending) endpoint_id pending

  -- 204, or an error.
  abbrev pub deleted_answer : String → Bool → Result (Unit {0})
  deleted_answer endpoint_id true = ok tt
  deleted_answer endpoint_id false = err (not_found ("Endpoint " +++ endpoint_id +++ " not found"))

  unfoldable pub delete_endpoint : String → HeaderMap → Act (Unit {0})
  delete_endpoint endpoint_id headers = do
    lift (verify_api_key headers cfg.auth.api_keys)
    call o
    deleted ← delete_if_drained endpoint_id
    lift (deleted_answer endpoint_id deleted)
