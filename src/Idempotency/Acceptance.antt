-- ===== src/Idempotency/Acceptance.antt =====
-- What `accept_event` and `transition_status` of src/core/idempotency.rs promise.
use aether_relay.Prelude.{◌+◌, String, ◌≡◌, ◌⊎◌, true, none, some, arith}
use aether_relay.Error.{AppError, err, ok}
use aether_relay.Models.{Bytes}
use aether_relay.Store.{Outside, World, store}
use aether_relay.Store.Tables.{select_where}
use aether_relay.Store.Schema.{
  endpoint_is, event_has_key, exists_where, insert_event_breaks, insert_event,
}
use aether_relay.Idempotency.{new_event, accept_event}

module _ (o : Outside) (endpoint_id key : String) (raw_body : Bytes) (headers : String)
    (w : World) where
  -- Whatever fails, be it a database call, a constraint or a duplicate, the database is as before.
  pub accept_event_atomic :
      (e : AppError)
      → (accept_event o endpoint_id key raw_body headers w).0 ≡ err e
      → (accept_event o endpoint_id key raw_body headers w).1.db ≡ w.db
  unfolding store accept_event
  accept_event_atomic e h = ground arith

  -- An accepted event is new: no event had its endpoint and key. It is stored as RECEIVED with the body,
  -- the headers, the identifier that is returned and the time, for an endpoint that exists.
  pub accept_event_stores :
      (id : String)
      → (accept_event o endpoint_id key raw_body headers w).0 ≡ ok id
      → (select_where (event_has_key endpoint_id key) w.db.events ≡ none)
        × (exists_where (endpoint_is endpoint_id) w.db.endpoints ≡ true)
        × ((accept_event o endpoint_id key raw_body headers w).1.db
            ≡ insert_event (new_event id endpoint_id key raw_body headers (o.time w.times)) w.db)
  unfolding store accept_event insert_event_breaks
  accept_event_stores id h = (ground arith, ground arith, ground arith)

  -- Where a database call of the look-up fails, its text.
  abbrev pub LookupFails : String → Type 0
  LookupFails e = (o.fault w.calls ≡ some e) ⊎ (o.fault (w.calls + 1) ≡ some e)
