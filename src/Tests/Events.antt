-- ===== src/Tests/Events.antt =====
-- Acceptance and transitions of events at concrete inputs.
use aether_relay.Prelude.Text.{decimal}
use aether_relay.Prelude.{◌≡◌, refl, true, false, none, []}
use aether_relay.Error.{database, err, ok}
use aether_relay.Models.{received, processing, delivered, as_str}
use aether_relay.Store.Tables.{select_where, update_where, count_where}
use aether_relay.Store.Schema.{
  endpoint_is, event_has_key, exists_where, insert_event_breaks, insert_event, update_status,
}
use aether_relay.Idempotency.{new_event, accept_event, transition_status}
use aether_relay.Store.{World, store}
use aether_relay.Idempotency.Acceptance.{accept_event_stores}
use aether_relay.Tests.Fixture.{db, failing, faulty, start}

acceptance : Unit {0}
unfolding store accept_event select_where count_where insert_event_breaks transition_status
    update_status update_where as_str decimal
acceptance = tt

commit_fails : (accept_event faulty "ep" "key-3" [] "{}" start).0 ≡ err (database "disk I/O error")
unfolding acceptance
commit_fails = refl

accepted : (accept_event failing "ep" "key-3" [] "{}" start).0 ≡ ok "id-0"
unfolding acceptance
accepted = refl

accept_event_stores_example :
    (select_where (event_has_key "ep" "key-3") db.events ≡ none)
    × (exists_where (endpoint_is "ep") db.endpoints ≡ true)
    × ((accept_event failing "ep" "key-3" [] "{}" start).1.db
        ≡ insert_event (new_event "id-0" "ep" "key-3" [] "{}" 100) db)
accept_event_stores_example = accept_event_stores failing "ep" "key-3" [] "{}" start "id-0" accepted

abbrev after_first : World
after_first = (accept_event failing "ep" "key-3" [] "{}" start).1

first_moves : (transition_status failing "ev-1" received processing start).0 ≡ ok true
unfolding acceptance
first_moves = refl

second_stays :
    (transition_status failing "ev-1" received delivered
      (transition_status failing "ev-1" received processing start).1).0
    ≡ ok false
unfolding acceptance
second_stays = refl
