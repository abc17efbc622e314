-- ===== src/System/Operations.antt =====
-- The operations of src/api, src/core and src/worker, and any sequence of them, by what their statements and
-- the composite ones among them keep.
use aether_relay.Prelude.{All, ℕ, String, ◌≡◌, Bool, true, false, none, List, [], ◌∷◌}
use aether_relay.Error.{Result}
use aether_relay.Config.{AppConfig}
use aether_relay.Models.{Bytes, EventStatus, received, as_str, EndpointRecord, EventRow}
use aether_relay.Store.{Outside, World, lift, call}
use aether_relay.Store.Rows.{Db}
use aether_relay.Crypto.Headers.{HeaderMap}
use aether_relay.Crypto.Crates.{Crates}
use aether_relay.Api.Ingest.{store_event, verify_and_store, handle_ingest_inner, handle_ingest}
use aether_relay.Api.Steps.{emitted-db}
use aether_relay.Api.Dlq.{list_dlq, replay, replay_dlq}
use aether_relay.Api.Target.{Parsers, CreateEndpointRequest}
use aether_relay.Api.Endpoints.{
  create, create_endpoint, list_endpoints, delete_unless, delete_if_drained, delete_endpoint,
}
use aether_relay.Store.Keeps.{
  Keeps, Keeps-bind, Keeps-pure, Keeps-raise, Keeps-call, Keeps-now_secs, Keeps-now_v7,
  Keeps-statement, Keeps-query, Keeps-transaction,
}
use aether_relay.Api.Refusal.{Still-counted, Still-find_endpoint}
use aether_relay.System.{
  Operation, ingest_op, create_op, list_endpoints_op, list_dlq_op, delete_op, replay_op,
  transition_op, work_op, perform, perform_all,
}
use aether_relay.System.Writes.{Keeps-accept_event}
use aether_relay.Runner.{from_app_config, run_dispatch_once}
use aether_relay.Idempotency.{transition_status}
use aether_relay.Store.Schema.{
  insert_endpoint_breaks, insert_endpoint, insert_event_breaks, insert_event, delete_endpoint_rows,
}
use aether_relay.Api.Management.{Allowed}

module _ {P : Db → Type 0} {A : Type 0} where
  pub Keeps-lift : (r : Result A) → Keeps P (lift r)
  Keeps-lift r = record { from = λ w h. h }

-- What the operations keep: the INSERTs of a handler and the DELETE of an endpoint by themselves, a replay, a
-- transition to an allowed status and a pass of the worker as a whole.
pub record OperationsKeep (P : Db → Type 0) (Allowed : EventStatus → Type 0) (o : Outside)
    (cfg : AppConfig) : Type 0 where
  pub on_endpoint :
      (row : EndpointRecord) (d : Db)
      → insert_endpoint_breaks row d ≡ none
      → P d
      → P (insert_endpoint row d)
  pub on_event :
      (row : EventRow) (d : Db)
      → row.status ≡ as_str received
      → insert_event_breaks row d ≡ none
      → P d
      → P (insert_event row d)
  pub on_delete_endpoint : (id : String) (d : Db) → P d → P (delete_endpoint_rows id d)
  pub replays : (dlq_id : String) → Keeps P (replay o cfg dlq_id)
  pub transitions :
      (event_id : String) (from to : EventStatus)
      → Allowed to
      → Keeps P (transition_status o event_id from to)
  pub works : Keeps P (run_dispatch_once o (from_app_config cfg))

-- A transition goes to an allowed status.
abbrev pub IsAllowed : (EventStatus → Type 0) → Operation → Type 0
IsAllowed Allowed (ingest_op _ _ _) = Unit {0}
IsAllowed Allowed (create_op _ _) = Unit {0}
IsAllowed Allowed (list_endpoints_op _) = Unit {0}
IsAllowed Allowed (list_dlq_op _) = Unit {0}
IsAllowed Allowed (delete_op _ _) = Unit {0}
IsAllowed Allowed (replay_op _ _) = Unit {0}
IsAllowed Allowed (transition_op _ _ to) = Allowed to
IsAllowed Allowed work_op = Unit {0}

module _ {P : Db → Type 0} {Allowed : EventStatus → Type 0} (o : Outside) (cfg : AppConfig)
    (k : OperationsKeep P Allowed o cfg) where
  module _ (c : Crates) (json_object : List (String × String) → String) where
    Keeps-store_event :
        (provider_str endpoint_id key : String) (headers : HeaderMap) (body : Bytes)
        → Keeps P (store_event o c json_object cfg provider_str endpoint_id key headers body)
    unfolding store_event
    Keeps-store_event provider_str endpoint_id key headers body =
        Keeps-bind _ _ (Still-counted (call o) (λ Q. Keeps-call o) P) λ _.
          Keeps-bind _ _ (Keeps-accept_event o k.on_event endpoint_id key body _) λ id. Keeps-pure _

    Keeps-verify_and_store :
        (endpoint : EndpointRecord) (endpoint_id key : String) (headers : HeaderMap) (body : Bytes)
        → Keeps P (verify_and_store o c json_object cfg endpoint endpoint_id key headers body)
    unfolding verify_and_store
    Keeps-verify_and_store endpoint endpoint_id key headers body =
        Keeps-bind _ _ (Keeps-lift _) λ provider.
          Keeps-bind _ _ (Keeps-now_secs o) λ now.
            Keeps-bind _ _ (Keeps-lift _) λ _. Keeps-store_event _ endpoint_id key headers body

    Keeps-handle_ingest_inner :
        (endpoint_id : String) (headers : HeaderMap) (body : Bytes)
        → Keeps P (handle_ingest_inner o c json_object cfg endpoint_id headers body)
    unfolding handle_ingest_inner
    Keeps-handle_ingest_inner endpoint_id headers body = Keeps-bind _ _ (Keeps-lift _) λ _.
        Keeps-bind _ _ (Keeps-lift _) λ _. Keeps-bind _ _ (Keeps-lift _) λ key.
          Keeps-bind _ _ (Still-find_endpoint o endpoint_id P)
            λ endpoint. Keeps-verify_and_store endpoint endpoint_id key headers body

    ingest_keeps :
        (endpoint_id : String) (headers : HeaderMap) (body : Bytes) (w : World)
        → P w.db
        → P (handle_ingest o c json_object cfg endpoint_id headers body w).1.db
    unfolding handle_ingest
    ingest_keeps endpoint_id headers body w h =
        let inner = handle_ingest_inner o c json_object cfg endpoint_id headers body in
        rw (emitted-db endpoint_id (inner w).0 (inner w).1)
          ((Keeps-handle_ingest_inner endpoint_id headers body).from w h)

  Keeps-create : (req : CreateEndpointRequest) → Keeps P (create o cfg req)
  Keeps-create req = Keeps-bind _ _ (Keeps-call o) λ _. Keeps-bind _ _ (Keeps-now_v7 o) λ id.
      Keeps-bind _ _ (Keeps-now_secs o)
        λ now. Keeps-bind _ _ (Keeps-statement o _ _ _ (k.on_endpoint _)) λ _. Keeps-pure _

  Keeps-create_endpoint :
      (p : Parsers) (headers : HeaderMap) (req : CreateEndpointRequest)
      → Keeps P (create_endpoint o cfg p headers req)
  unfolding create_endpoint
  Keeps-create_endpoint p headers req =
      Keeps-bind _ _ (Keeps-lift _) λ _. Keeps-bind _ _ (Keeps-lift _) λ _. Keeps-create req

  Keeps-list_endpoints : (headers : HeaderMap) → Keeps P (list_endpoints o cfg headers)
  unfolding list_endpoints
  Keeps-list_endpoints headers =
      Keeps-bind _ _ (Keeps-lift _) λ _. Keeps-bind _ _ (Keeps-call o) λ _. Keeps-query o _

  Keeps-list_dlq : (headers : HeaderMap) → Keeps P (list_dlq o cfg headers)
  unfolding list_dlq
  Keeps-list_dlq headers =
      Keeps-bind _ _ (Keeps-lift _) λ _. Keeps-bind _ _ (Keeps-call o) λ _. Keeps-query o _

  Keeps-replay_dlq :
      (dlq_id : String) (headers : HeaderMap) → Keeps P (replay_dlq o cfg dlq_id headers)
  unfolding replay_dlq
  Keeps-replay_dlq dlq_id headers =
      Keeps-bind _ _ (Keeps-lift _) λ _. Keeps-bind _ _ (k.replays dlq_id) λ _. Keeps-pure _

  Keeps-delete_unless :
      (stop : Bool) (endpoint_id : String) (pending : ℕ)
      → Keeps P (delete_unless o cfg stop endpoint_id pending)
  Keeps-delete_unless true endpoint_id pending = Keeps-raise _
  Keeps-delete_unless false endpoint_id pending =
      Keeps-bind _ _ (Keeps-statement o _ _ _ (λ d _ h. k.on_delete_endpoint endpoint_id d h))
        λ rows. Keeps-pure _

  Keeps-delete_endpoint :
      (endpoint_id : String) (headers : HeaderMap)
      → Keeps P (delete_endpoint o cfg endpoint_id headers)
  unfolding delete_endpoint delete_if_drained
  Keeps-delete_endpoint endpoint_id headers = Keeps-bind _ _ (Keeps-lift _) λ _.
      Keeps-bind _ _ (Keeps-call o) λ _.
        Keeps-bind _ _
          (Keeps-transaction o _
            (Keeps-bind _ _ (Keeps-query o _) λ pending. Keeps-delete_unless _ endpoint_id pending))
          λ deleted. Keeps-lift _

  module _ (c : Crates) (json_object : List (String × String) → String) (parsers : Parsers) where
    pub perform_keeps_allowed :
        (op : Operation) (w : World)
        → IsAllowed Allowed op
        → P w.db
        → P (perform o c json_object parsers cfg op w).db
    unfolding perform
    perform_keeps_allowed (ingest_op endpoint_id headers body) w _ h =
        ingest_keeps c json_object endpoint_id headers body w h
    perform_keeps_allowed (create_op headers req) w _ h =
        (Keeps-create_endpoint parsers headers req).from w h
    perform_keeps_allowed (list_endpoints_op headers) w _ h =
        (Keeps-list_endpoints headers).from w h
    perform_keeps_allowed (list_dlq_op headers) w _ h = (Keeps-list_dlq headers).from w h
    perform_keeps_allowed (delete_op endpoint_id headers) w _ h =
        (Keeps-delete_endpoint endpoint_id headers).from w h
    perform_keeps_allowed (replay_op dlq_id headers) w _ h =
        (Keeps-replay_dlq dlq_id headers).from w h
    perform_keeps_allowed (transition_op event_id from' to) w allowed h =
        (k.transitions event_id from' to allowed).from w h
    perform_keeps_allowed work_op w _ h = k.works.from w h

    pub perform_all_keeps_allowed :
        (ops : List Operation) (w : World)
        → All (IsAllowed Allowed) ops
        → P w.db
        → P (perform_all o c json_object parsers cfg ops w).db
    unfolding perform_all
    perform_all_keeps_allowed [] w _ h = h
    perform_all_keeps_allowed (op ∷ ops) w (a, rest) h =
        perform_all_keeps_allowed ops _ rest (perform_keeps_allowed op w a h)
