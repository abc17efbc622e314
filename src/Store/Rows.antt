-- ===== src/Store/Rows.antt =====
-- The tables of src/db/migrations.rs.
use aether_relay.Prelude.{List}
use aether_relay.Models.{EndpointRecord, EventRow, AttemptRow, DeadLetterRow}

pub record Db : Type 0 where
  pub endpoints : List EndpointRecord
  pub events : List EventRow
  pub attempts : List AttemptRow
  pub dead_letters : List DeadLetterRow
