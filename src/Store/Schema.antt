-- ===== src/Store/Schema.antt =====
-- The SQL statements of the program over the tables of src/db/migrations.rs: the constraints that
-- an INSERT can break (keys, UNIQUE, foreign keys), and what each statement writes.
use aether_relay.Prelude.{
  ltb, ◌=?◌, if◌then◌else◌, String, Bool, true, false, ◌&&◌, ◌||◌, Option, none, some, List,
}
use aether_relay.Models.{EndpointRecord, EventRow, AttemptRow, DeadLetterRow}
use aether_relay.Store.Tables.{update_where, delete_where, count_where, insert}
use aether_relay.Store.Rows.{Db}

abbrev pub endpoint_is : String → EndpointRecord → Bool
endpoint_is id e = e.id =? id

abbrev pub event_is : String → EventRow → Bool
event_is id e = e.id =? id

abbrev pub event_of_endpoint : String → EventRow → Bool
event_of_endpoint endpoint_id e = e.endpoint_id =? endpoint_id

-- `endpoint_id = ?1 AND idempotency_key = ?2`
abbrev pub event_has_key : String → String → EventRow → Bool
event_has_key endpoint_id key e = e.endpoint_id =? endpoint_id && e.idempotency_key =? key

abbrev pub attempt_is : String → AttemptRow → Bool
attempt_is id a = a.id =? id

abbrev pub attempt_of : String → AttemptRow → Bool
attempt_of event_id a = a.event_id =? event_id

abbrev pub dead_letter_is : String → DeadLetterRow → Bool
dead_letter_is id r = r.id =? id

abbrev pub dead_letter_of : String → DeadLetterRow → Bool
dead_letter_of event_id r = r.event_id =? event_id

abbrev pub exists_where {ℓ} : {A : Type ℓ} → (A → Bool) → List A → Bool
exists_where p xs = ltb 0 (count_where p xs)

unfoldable pub insert_endpoint_breaks : EndpointRecord → Db → Option String
insert_endpoint_breaks row d =
    if exists_where (endpoint_is row.id) d.endpoints
    then some "UNIQUE constraint failed: endpoints.id"
    else none

unfoldable pub insert_endpoint : EndpointRecord → Db → Db
insert_endpoint row d = record d { endpoints = insert row d.endpoints }

unfoldable pub insert_event_breaks : EventRow → Db → Option String
insert_event_breaks row d =
    if exists_where (event_is row.id) d.events
    then some "UNIQUE constraint failed: incoming_events.id"
    else if exists_where (event_has_key row.endpoint_id row.idempotency_key) d.events
    then some
        "UNIQUE constraint failed: incoming_events.endpoint_id, incoming_events.idempotency_key"
    else if exists_where (endpoint_is row.endpoint_id) d.endpoints
    then none
    else some "FOREIGN KEY constraint failed"

unfoldable pub insert_event : EventRow → Db → Db
insert_event row d = record d { events = insert row d.events }

abbrev pub with_status : String → EventRow → EventRow
with_status status e = record e { status = status }

-- UPDATE incoming_events SET status = … WHERE …
unfoldable pub update_status : (EventRow → Bool) → String → Db → Db
update_status p status d = record d { events = update_where p (with_status status) d.events }

unfoldable pub insert_attempt_breaks : AttemptRow → Db → Option String
insert_attempt_breaks row d =
    if exists_where (attempt_is row.id) d.attempts
    then some "UNIQUE constraint failed: delivery_attempts.id"
    else if exists_where (event_is row.event_id) d.events
    then none
    else some "FOREIGN KEY constraint failed"

unfoldable pub insert_attempt : AttemptRow → Db → Db
insert_attempt row d = record d { attempts = insert row d.attempts }

unfoldable pub delete_attempts : String → Db → Db
delete_attempts event_id d = record d { attempts = delete_where (attempt_of event_id) d.attempts }

-- INSERT OR REPLACE first deletes the rows with the same key or the same unique event.
unfoldable pub replace_dead_letter_breaks : DeadLetterRow → Db → Option String
replace_dead_letter_breaks row d =
    if exists_where (event_is row.event_id) d.events
    then none
    else some "FOREIGN KEY constraint failed"

abbrev pub replaced_by : DeadLetterRow → DeadLetterRow → Bool
replaced_by row r = dead_letter_is row.id r || dead_letter_of row.event_id r

unfoldable pub replace_dead_letter : DeadLetterRow → Db → Db
replace_dead_letter row d = record d {
  dead_letters = insert row (delete_where (replaced_by row) d.dead_letters);
}

unfoldable pub delete_dead_letter : String → Db → Db
delete_dead_letter id d = record d {
  dead_letters = delete_where (dead_letter_is id) d.dead_letters;
}

-- An event that the cascade from an endpoint deletes.
abbrev pub cascades : String → List EventRow → String → Bool
cascades endpoint_id events event_id =
    exists_where (λ e. event_is event_id e && event_of_endpoint endpoint_id e) events

abbrev pub cascade : Bool → String → Db → Db
cascade false id d = d
cascade true id d = record d {
  endpoints = delete_where (endpoint_is id) d.endpoints;
  events = delete_where (event_of_endpoint id) d.events;
  attempts = delete_where (λ a. cascades id d.events a.event_id) d.attempts;
  dead_letters = delete_where (λ r. cascades id d.events r.event_id) d.dead_letters;
}

-- DELETE FROM endpoints. With a row that is deleted go, by ON DELETE CASCADE, its events and their
-- attempts and dead letters.
unfoldable pub delete_endpoint_rows : String → Db → Db
delete_endpoint_rows id d = cascade (exists_where (endpoint_is id) d.endpoints) id d
