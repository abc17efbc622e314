-- ===== src/System.antt =====
-- The program as the operations that act on its one world: the handlers of src/api, a pass of the
-- worker of src/worker/runner.rs, and `transition_status` of src/core/idempotency.rs. Operations follow one another in
-- any order and number.
pub mod Writes
pub mod Operations
pub mod Handlers
pub mod Sound
pub mod Inserts
pub mod Integrity
pub mod Interleaving
pub mod Serving
pub mod Evidence
pub mod Delivered
pub mod Exhausted
pub mod Typed
pub mod Turns
pub mod Smooth
pub mod Settled
pub mod Answering
use aether_relay.Prelude.{String, List, [], ◌∷◌}
use aether_relay.Config.{AppConfig}
use aether_relay.Models.{Bytes, EventStatus}
use aether_relay.Store.{Outside, World, Act}
use aether_relay.Idempotency.{transition_status}
use aether_relay.Runner.{from_app_config, run_dispatch_once}
use aether_relay.Crypto.Headers.{HeaderMap}
use aether_relay.Crypto.Crates.{Crates}
use aether_relay.Api.Ingest.{handle_ingest}
use aether_relay.Api.Dlq.{list_dlq, replay_dlq}
use aether_relay.Api.Target.{Parsers, CreateEndpointRequest}
use aether_relay.Api.Endpoints.{create_endpoint, list_endpoints, delete_endpoint}

pub data Operation : Type 0 where
  ingest_op : String → HeaderMap → Bytes → Operation
  create_op : HeaderMap → CreateEndpointRequest → Operation
  list_endpoints_op list_dlq_op : HeaderMap → Operation
  delete_op replay_op : String → HeaderMap → Operation
  transition_op : String → EventStatus → EventStatus → Operation
  work_op : Operation

-- The world that an action leaves, whether it returns or fails.
abbrev pub after : {A : Type 0} → Act A → World → World
after m w = (m w).1

module _ (o : Outside) (c : Crates) (json_object : List (String × String) → String)
    (parsers : Parsers) (cfg : AppConfig) where
  unfoldable pub perform : Operation → World → World
  perform (ingest_op endpoint_id headers body) w =
      (handle_ingest o c json_object cfg endpoint_id headers body w).1
  perform (create_op headers req) w = after (create_endpoint o cfg parsers headers req) w
  perform (list_endpoints_op headers) w = after (list_endpoints o cfg headers) w
  perform (list_dlq_op headers) w = after (list_dlq o cfg headers) w
  perform (delete_op endpoint_id headers) w = after (delete_endpoint o cfg endpoint_id headers) w
  perform (replay_op dlq_id headers) w = after (replay_dlq o cfg dlq_id headers) w
  perform (transition_op event_id from to) w = after (transition_status o event_id from to) w
  perform work_op w = after (run_dispatch_once o (from_app_config cfg)) w

  -- One operation after the other.
  unfoldable pub perform_all : List Operation → World → World
  perform_all [] w = w
  perform_all (op ∷ ops) w = perform_all ops (perform op w)
