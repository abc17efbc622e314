-- ===== src/Models.antt =====
-- src/db/models.rs and the rows of the tables that src/db/migrations.rs declares.
pub mod Laws
use aether_relay.Prelude.{◌=?◌, if◌then◌else◌, ℕ, String, Option, none, some, List}

abbrev pub Bytes : Type 0
Bytes = List ℕ

pub data EventStatus : Type 0 where
  received processing delivered failed : EventStatus

unfoldable pub as_str : EventStatus → String
as_str received = "RECEIVED"
as_str processing = "PROCESSING"
as_str delivered = "DELIVERED"
as_str failed = "FAILED"

-- `Err(())` is `none`.
unfoldable pub from_str : String → Option EventStatus
from_str s =
    if s =? "RECEIVED"
    then some received
    else if s =? "PROCESSING"
    then some processing
    else if s =? "DELIVERED"
    then some delivered
    else if s =? "FAILED"
    then some failed
    else none

pub record EndpointRecord : Type 0 where
  pub id : String
  pub name : String
  pub provider : String
  pub secret : String
  pub target_url : String
  pub created_at : ℕ

-- A row of `incoming_events`; its status column is text.
pub record EventRow : Type 0 where
  pub id : String
  pub endpoint_id : String
  pub idempotency_key : String
  pub raw_body : Bytes
  pub headers : String
  pub status : String
  pub created_at : ℕ

pub record AttemptRow : Type 0 where
  pub id : String
  pub event_id : String
  pub attempt_number : ℕ
  pub response_status : Option ℕ
  pub response_body : Option String
  pub error_message : Option String
  pub created_at : ℕ

pub record DeadLetterRow : Type 0 where
  pub id : String
  pub event_id : String
  pub endpoint_id : String
  pub error_reason : String
  pub last_attempt_status : Option ℕ
  pub created_at : ℕ
