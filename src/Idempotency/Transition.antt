-- ===== src/Idempotency/Transition.antt =====
-- The compare-and-set of src/core/idempotency.rs.
use aether_relay.Prelude.{ltb, ℕ, String, ◌≡◌, ap, ◌∙◌, ◌≢◌, Bool, false, arith, eq_iff}
use aether_relay.Error.{AppError, ok, err}
use aether_relay.Models.{EventStatus, as_str, EventRow}
use aether_relay.Models.Laws.{as_str-injective}
use aether_relay.Store.{Outside, World, store}
use aether_relay.Store.Rows.{Db}
use aether_relay.Store.Tables.Laws.{count_where-update_out}
use aether_relay.Store.Schema.{exists_where, with_status, update_status}
use aether_relay.Idempotency.{event_in_state, transition_status}

module _ (o : Outside) (event_id : String) (from to : EventStatus) (w : World) where
  -- `transition_status` tells whether an event with this identifier was in the expected state, and
  -- moves exactly those to the new state; a failed call leaves the database as it was.
  pub transition_status_lem :
      ((moved : Bool)
        → (transition_status o event_id from to w).0 ≡ ok moved
        → (moved ≡ exists_where (event_in_state event_id from) w.db.events)
          × ((transition_status o event_id from to w).1.db
              ≡ update_status (event_in_state event_id from) (as_str to) w.db))
      × ((e : AppError)
          → (transition_status o event_id from to w).0 ≡ err e
          → (transition_status o event_id from to w).1.db ≡ w.db)
  unfolding store transition_status
  transition_status_lem = (λ moved h. (ground arith, ground arith), λ e h. ground arith)

moved_out :
    (event_id : String) (from to : EventStatus) (e : EventRow)
    → to ≢ from
    → event_in_state event_id from (with_status (as_str to) e) ≡ false
moved_out event_id from to e h =
    ground (arith, eq_iff (as_str to) (as_str from), as_str-injective to from, h)

-- Of two transitions out of one state, one after the other, at most one succeeds: when the first
-- returned and the state it moves to is another, the second finds no event left to move, whatever
-- state it aims at.
pub transition_status_once :
    (o : Outside) (event_id : String) (from to to' : EventStatus) (w : World) (moved moved' : Bool)
    → to ≢ from
    → (transition_status o event_id from to w).0 ≡ ok moved
    → (transition_status o event_id from to' (transition_status o event_id from to w).1).0
      ≡ ok moved'
    → moved' ≡ false
unfolding update_status
transition_status_once o event_id from to to' w moved moved' ne first second =
    let db_after = ((transition_status_lem o event_id from to w).0 moved first).1 in
    let found = ((transition_status_lem o event_id from to' _).0 moved' second).0 in
    let gone =
      count_where-update_out (event_in_state event_id from) (with_status (as_str to)) w.db.events
        (λ e. moved_out event_id from to e ne) in
    found
    ∙ ap (λ (d : Db). exists_where (event_in_state event_id from) d.events) db_after
    ∙ ap (λ (n : ℕ). ltb 0 n) gone
