-- ===== src/Idempotency.antt =====
-- src/core/idempotency.rs: events are accepted once for each key, and statuses move by
-- compare-and-set.
pub mod Acceptance
pub mod Transition
use aether_relay.Prelude.{ltb, ◌=?◌, ℕ, String, Bool, ◌&&◌, Option, none, some}
use aether_relay.Error.{duplicate_idempotency_key}
use aether_relay.Models.{Bytes, EventStatus, as_str, EventRow}
use aether_relay.Store.{
  Outside, Act, pure, raise, statement, query, transaction, now_secs, now_v7, ◌>>=◌, ◌>>◌,
}
use aether_relay.Store.Tables.{select_where, count_where}
use aether_relay.Store.Schema.{
  event_is, event_has_key, insert_event_breaks, insert_event, update_status,
}

abbrev pub new_event : String → String → String → Bytes → String → ℕ → EventRow
new_event id endpoint_id key raw_body headers now = record {
  id = id;
  endpoint_id = endpoint_id;
  idempotency_key = key;
  raw_body = raw_body;
  headers = headers;
  status = "RECEIVED";
  created_at = now;
}

-- `id = ?2 AND status = ?3`
abbrev pub event_in_state : String → EventStatus → EventRow → Bool
event_in_state id from e = event_is id e && e.status =? as_str from

module _ (o : Outside) where
  abbrev pub accept_new : String → String → Bytes → String → Act String
  accept_new endpoint_id key raw_body headers = do
    event_id ← now_v7 o
    now ← now_secs o
    let row = new_event event_id endpoint_id key raw_body headers now
    statement o (insert_event_breaks row) (λ _. tt) (insert_event row)
    pure event_id

  abbrev pub accept_unless : Option EventRow → String → String → Bytes → String → Act String
  accept_unless (some existing) endpoint_id key raw_body headers =
      raise (duplicate_idempotency_key existing.status)
  accept_unless none endpoint_id key raw_body headers = accept_new endpoint_id key raw_body headers

  unfoldable pub accept_event : String → String → Bytes → String → Act String
  accept_event endpoint_id key raw_body headers = transaction o do
    existing ← query o (λ d. select_where (event_has_key endpoint_id key) d.events)
    accept_unless existing endpoint_id key raw_body headers

  unfoldable pub transition_status : String → EventStatus → EventStatus → Act Bool
  transition_status event_id from to = transaction o do
    rows_affected ←
        statement o (λ _. none) (λ d. count_where (event_in_state event_id from) d.events)
          (update_status (event_in_state event_id from) (as_str to))
    pure (ltb 0 rows_affected)
