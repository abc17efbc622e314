-- ===== src/System/Interleaving.antt =====
-- The SQL statements that write, as steps on the database. A step is one statement on its own or a
-- statement of a transaction; the steps of handlers and workers that run at the same time follow one
-- another in any order.
use aether_relay.Prelude.{String, ◌≡◌, refl, sym, subst, Bool, none, List}
use aether_relay.Config.{AppConfig}
use aether_relay.Models.{
  EventStatus, received, as_str, EndpointRecord, EventRow, AttemptRow, DeadLetterRow,
}
use aether_relay.Store.{Outside, World}
use aether_relay.Store.Rows.{Db}
use aether_relay.Store.Schema.{
  insert_endpoint_breaks, insert_endpoint, insert_event_breaks, insert_event, update_status,
  insert_attempt_breaks, insert_attempt, delete_attempts, replace_dead_letter_breaks,
  replace_dead_letter, delete_dead_letter, delete_endpoint_rows,
}
use aether_relay.Crypto.Crates.{Crates}
use aether_relay.Api.Target.{Parsers}
use aether_relay.System.{Operation, perform}
use aether_relay.System.Writes.{AllWritesKeep}
use aether_relay.System.Handlers.{perform_keeps}
use aether_relay.System.Sound.{IsSound}
use aether_relay.System.Integrity.{IsSound-writes}

-- A statement from the database `d`, and what it leaves.
pub data Write (d : Db) (e : Db) : Type 0 where
  set_status :
      (p : EventRow → Bool) (st : EventStatus) → e ≡ update_status p (as_str st) d → Write d e
  add_endpoint :
      (row : EndpointRecord)
      → insert_endpoint_breaks row d ≡ none
      → e ≡ insert_endpoint row d
      → Write d e
  add_event :
      (row : EventRow)
      → row.status ≡ as_str received
      → insert_event_breaks row d ≡ none
      → e ≡ insert_event row d
      → Write d e
  add_attempt :
      (row : AttemptRow) → insert_attempt_breaks row d ≡ none → e ≡ insert_attempt row d → Write d e
  add_dead_letter :
      (row : DeadLetterRow)
      → replace_dead_letter_breaks row d ≡ none
      → e ≡ replace_dead_letter row d
      → Write d e
  drop_attempts : (event_id : String) → e ≡ delete_attempts event_id d → Write d e
  drop_dead_letter : (id : String) → e ≡ delete_dead_letter id d → Write d e
  drop_endpoint : (id : String) → e ≡ delete_endpoint_rows id d → Write d e

-- Statements one after the other, whoever makes them.
pub data Writes (d : Db) : Db → Type 0 where
  none_yet : Writes d d
  later : {e f : Db} → Writes d e → Write e f → Writes d f

-- Every statement moves along.
one_more : (d : Db) → AllWritesKeep (Writes d)
one_more d = record {
  on_status = λ p st e r. later r (set_status p st refl);
  on_endpoint = λ row e fits r. later r (add_endpoint row fits refl);
  on_event = λ row e is_received fits r. later r (add_event row is_received fits refl);
  on_attempt = λ row e fits r. later r (add_attempt row fits refl);
  on_dead_letter = λ row e fits r. later r (add_dead_letter row fits refl);
  on_delete_attempts = λ id e r. later r (drop_attempts id refl);
  on_delete_dead_letter = λ id e r. later r (drop_dead_letter id refl);
  on_delete_endpoint = λ id e r. later r (drop_endpoint id refl);
}

Write-keep : {P : Db → Type 0} {d e : Db} → AllWritesKeep P → Write d e → P d → P e
Write-keep {P} {d} k (set_status p st at_e) h = subst P (sym at_e) (k.on_status p st d h)
Write-keep {P} {d} k (add_endpoint row fits at_e) h =
    subst P (sym at_e) (k.on_endpoint row d fits h)
Write-keep {P} {d} k (add_event row is_received fits at_e) h =
    subst P (sym at_e) (k.on_event row d is_received fits h)
Write-keep {P} {d} k (add_attempt row fits at_e) h = subst P (sym at_e) (k.on_attempt row d fits h)
Write-keep {P} {d} k (add_dead_letter row fits at_e) h =
    subst P (sym at_e) (k.on_dead_letter row d fits h)
Write-keep {P} {d} k (drop_attempts id at_e) h = subst P (sym at_e) (k.on_delete_attempts id d h)
Write-keep {P} {d} k (drop_dead_letter id at_e) h =
    subst P (sym at_e) (k.on_delete_dead_letter id d h)
Write-keep {P} {d} k (drop_endpoint id at_e) h = subst P (sym at_e) (k.on_delete_endpoint id d h)

-- Whatever one statement keeps, any number of them keeps.
Writes-keep : {P : Db → Type 0} {d e : Db} → AllWritesKeep P → Writes d e → P d → P e
Writes-keep k none_yet h = h
Writes-keep k (later r step) h = Write-keep k step (Writes-keep k r h)

-- Every operation, whether it returns or fails, is a run of statements that break no constraint.
perform-Writes :
    (o : Outside) (c : Crates) (json_object : List (String × String) → String) (parsers : Parsers)
    (cfg : AppConfig) (op : Operation) (w : World)
    → Writes w.db (perform o c json_object parsers cfg op w).db
perform-Writes o c json_object parsers cfg op w =
    perform_keeps o (one_more w.db) c json_object parsers cfg op w none_yet

-- The statements of handlers and workers that run at the same time, in whatever order they come to the
-- database, lead from a sound database to a sound one.
pub Writes-IsSound : (d e : Db) → Writes d e → IsSound d → IsSound e
Writes-IsSound d e r s = Writes-keep IsSound-writes r s
