-- ===== src/System/Handlers.antt =====
-- The rule of `System.Writes` for the operations, the replay of src/api/dlq.rs included, and for any sequence
-- of them.
use aether_relay.Prelude.{String, List, [], ◌∷◌}
use aether_relay.Config.{AppConfig}
use aether_relay.Models.{received}
use aether_relay.Store.{Outside, World}
use aether_relay.Store.Rows.{Db}
use aether_relay.Crypto.Crates.{Crates}
use aether_relay.Api.Dlq.{replay}
use aether_relay.Api.Target.{Parsers}
use aether_relay.Store.Keeps.{Keeps, Keeps-bind, Keeps-pure, Keeps-call, Keeps-query, Keeps-execute}
use aether_relay.System.{
  Operation, ingest_op, create_op, list_endpoints_op, list_dlq_op, delete_op, replay_op,
  transition_op, work_op, perform, perform_all,
}
use aether_relay.System.Writes.{AllWritesKeep, Keeps-transition_status, Keeps-run_dispatch_once}
use aether_relay.Runner.{from_app_config}
use aether_relay.System.Operations.{Keeps-lift, OperationsKeep, IsAllowed, perform_keeps_allowed}

module _ {P : Db → Type 0} (o : Outside) (k : AllWritesKeep P) where
  Keeps-replay : (cfg : AppConfig) (dlq_id : String) → Keeps P (replay o cfg dlq_id)
  unfolding replay
  Keeps-replay cfg dlq_id = Keeps-bind _ _ (Keeps-call o) λ _.
      Keeps-bind _ _ (Keeps-query o _) λ found. Keeps-bind _ _ (Keeps-lift _) λ row.
        Keeps-bind _ _ (Keeps-execute o _ (k.on_status _ received)) λ _.
          Keeps-bind _ _ (Keeps-execute o _ (k.on_delete_attempts _))
            λ _. Keeps-bind _ _ (Keeps-execute o _ (k.on_delete_dead_letter _)) λ _. Keeps-pure _

  operations_of : (cfg : AppConfig) → OperationsKeep P (λ _. Unit {0}) o cfg
  operations_of cfg = record {
    on_endpoint = k.on_endpoint;
    on_event = k.on_event;
    on_delete_endpoint = k.on_delete_endpoint;
    replays = Keeps-replay cfg;
    transitions = λ event_id from' to _. Keeps-transition_status o k event_id from' to;
    works = Keeps-run_dispatch_once o k (from_app_config cfg);
  }

  any-IsAllowed : (op : Operation) → IsAllowed (λ _. Unit {0}) op
  any-IsAllowed (ingest_op _ _ _) = tt
  any-IsAllowed (create_op _ _) = tt
  any-IsAllowed (list_endpoints_op _) = tt
  any-IsAllowed (list_dlq_op _) = tt
  any-IsAllowed (delete_op _ _) = tt
  any-IsAllowed (replay_op _ _) = tt
  any-IsAllowed (transition_op _ _ _) = tt
  any-IsAllowed work_op = tt

  module _ (c : Crates) (json_object : List (String × String) → String) (parsers : Parsers)
      (cfg : AppConfig) where
    pub perform_keeps :
        (op : Operation) (w : World) → P w.db → P (perform o c json_object parsers cfg op w).db
    perform_keeps op w h =
        perform_keeps_allowed o cfg (operations_of cfg) c json_object parsers op w
          (any-IsAllowed op) h

    pub perform_all_keeps :
        (ops : List Operation) (w : World)
        → P w.db
        → P (perform_all o c json_object parsers cfg ops w).db
    unfolding perform_all
    perform_all_keeps [] w h = h
    perform_all_keeps (op ∷ ops) w h = perform_all_keeps ops _ (perform_keeps op w h)
