-- ===== src/System/Typed.antt =====
-- The status column of src/db/migrations.rs is text, with no CHECK: that it holds a word of `EventStatus` is
-- the program's doing.
use aether_relay.Store.Tables.Every.{All-insert, All-delete, All-update}
use aether_relay.Prelude.{All, String, ◌≡◌, refl, Bool, true, false, some, List}
use aether_relay.Models.{EventStatus, received, as_str, from_str, EventRow}
use aether_relay.Config.{AppConfig}
use aether_relay.Store.Schema.{
  endpoint_is, event_of_endpoint, exists_where, insert_endpoint, insert_event, with_status,
  update_status, insert_attempt, delete_attempts, replace_dead_letter, delete_dead_letter, cascade,
  delete_endpoint_rows,
}
use aether_relay.Api.Target.{Parsers}
use aether_relay.System.Handlers.{perform_all_keeps}
use aether_relay.Store.{Outside, World}
use aether_relay.System.{Operation, perform_all}
use aether_relay.Crypto.Crates.{Crates}
use aether_relay.System.Writes.{AllWritesKeep}
use aether_relay.Store.Rows.{Db}
use aether_relay.Models.Laws.{from_str_iff}

-- The text can be read as a status.
abbrev pub HasStatus : EventRow → Type 0
HasStatus e = (st : EventStatus) × (from_str e.status ≡ some st)

abbrev pub IsTyped : Db → Type 0
IsTyped d = All HasStatus d.events

written_status :
    (st : EventStatus) (s : String) → s ≡ as_str st → (st' : EventStatus) × (from_str s ≡ some st')
written_status st s h = (st, (from_str_iff s st).1 h)

cascade-IsTyped : (found : Bool) (id : String) (d : Db) → IsTyped d → IsTyped (cascade found id d)
cascade-IsTyped false id d h = h
cascade-IsTyped true id d h = All-delete HasStatus (event_of_endpoint id) d.events h

pub IsTyped-writes : AllWritesKeep IsTyped
unfolding update_status insert_endpoint insert_event insert_attempt replace_dead_letter
    delete_attempts delete_dead_letter delete_endpoint_rows
IsTyped-writes = record {
  on_status = λ p st d h.
      All-update HasStatus p (with_status (as_str st)) d.events
        (λ e. written_status st (as_str st) refl) h;
  on_endpoint = λ row d _ h. h;
  on_event = λ row d is_received _ h.
      All-insert HasStatus row d.events (written_status received row.status is_received) h;
  on_attempt = λ row d _ h. h;
  on_dead_letter = λ row d _ h. h;
  on_delete_attempts = λ id d h. h;
  on_delete_dead_letter = λ id d h. h;
  on_delete_endpoint = λ id d h. cascade-IsTyped (exists_where (endpoint_is id) d.endpoints) id d h;
}

-- From a database in which every status is one of the four words, any sequence of operations leads to such a
-- database, whatever calls fail: the status of every event can be read back as an `EventStatus`.
pub perform_all-IsTyped :
    (o : Outside) (c : Crates) (json_object : List (String × String) → String) (parsers : Parsers)
    (cfg : AppConfig) (ops : List Operation) (w : World)
    → IsTyped w.db
    → IsTyped (perform_all o c json_object parsers cfg ops w).db
perform_all-IsTyped o c json_object parsers cfg ops w h =
    perform_all_keeps o IsTyped-writes c json_object parsers cfg ops w h
