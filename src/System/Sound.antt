-- ===== src/System/Sound.antt =====
-- What holds of the tables of src/db/migrations.rs whatever the program does: keys are unique, and
-- every row belongs to a row that exists.
use aether_relay.Prelude.{◌=?◌, ◌≤◌, String, ◌≡◌, refl, Bool, true, eq_iff}
use aether_relay.Models.{EventStatus, as_str, EndpointRecord, EventRow}
use aether_relay.Store.Rows.{Db}
use aether_relay.Store.Tables.{update_where, count_where}
use aether_relay.Store.Tables.Laws.{count_where-update_same}
use aether_relay.Store.Tables.Counts.{before_insert, delete_none, delete_unique}
use aether_relay.Store.Schema.{
  endpoint_is, event_is, event_of_endpoint, event_has_key, attempt_of, dead_letter_of,
  insert_endpoint, with_status, update_status, delete_attempts, delete_dead_letter,
}

pub record IsSound (d : Db) : Type 0 where
  pub unique_keys : (e k : String) → count_where (event_has_key e k) d.events ≤ 1
  pub unique_ids : (id : String) → count_where (event_is id) d.events ≤ 1
  pub of_endpoint :
      (id : String)
      → count_where (endpoint_is id) d.endpoints ≡ 0
      → count_where (event_of_endpoint id) d.events ≡ 0
  pub of_event :
      (id : String)
      → count_where (event_is id) d.events ≡ 0
      → count_where (attempt_of id) d.attempts ≡ 0
  pub dead_of_event :
      (id : String)
      → count_where (event_is id) d.events ≡ 0
      → count_where (dead_letter_of id) d.dead_letters ≡ 0
  pub one_dead_letter : (id : String) → count_where (dead_letter_of id) d.dead_letters ≤ 1

-- Two texts are equal, or their test is false.
pub test_eq : (s t : String) → (s =? t) ≡ true → s ≡ t
test_eq s t h = (eq_iff s t).0 h

pub status-IsSound :
    (p : EventRow → Bool) (st : EventStatus) (d : Db)
    → IsSound d
    → IsSound (update_status p (as_str st) d)
unfolding update_status
status-IsSound p st d s =
    let same : (q : EventRow → Bool)
        → ((e : EventRow) → q (with_status (as_str st) e) ≡ q e)
        → count_where q (update_where p (with_status (as_str st)) d.events)
          ≡ count_where q d.events =
      λ q agrees. count_where-update_same p q (with_status (as_str st)) d.events agrees in
    record {
      unique_keys = λ e k. rw (same (event_has_key e k) (λ _. refl)) (s.unique_keys e k);
      unique_ids = λ id. rw (same (event_is id) (λ _. refl)) (s.unique_ids id);
      of_endpoint =
          λ id none_left. rw (same (event_of_endpoint id) (λ _. refl)) (s.of_endpoint id none_left);
      of_event = λ id none_left. s.of_event id (rw (same (event_is id) (λ _. refl)) at none_left);
      dead_of_event =
          λ id none_left. s.dead_of_event id (rw (same (event_is id) (λ _. refl)) at none_left);
      one_dead_letter = s.one_dead_letter;
    }

pub endpoint-IsSound : (row : EndpointRecord) (d : Db) → IsSound d → IsSound (insert_endpoint row d)
unfolding insert_endpoint
endpoint-IsSound row d s = record {
  unique_keys = s.unique_keys;
  unique_ids = s.unique_ids;
  of_endpoint =
      λ id none_left. s.of_endpoint id (before_insert (endpoint_is id) row d.endpoints none_left);
  of_event = s.of_event;
  dead_of_event = s.dead_of_event;
  one_dead_letter = s.one_dead_letter;
}

pub delete_attempts-IsSound :
    (event_id : String) (d : Db) → IsSound d → IsSound (delete_attempts event_id d)
unfolding delete_attempts
delete_attempts-IsSound event_id d s = record {
  unique_keys = s.unique_keys;
  unique_ids = s.unique_ids;
  of_endpoint = s.of_endpoint;
  of_event = λ id none_left. delete_none (attempt_of id) _ d.attempts (s.of_event id none_left);
  dead_of_event = s.dead_of_event;
  one_dead_letter = s.one_dead_letter;
}

pub delete_dead_letter-IsSound :
    (id : String) (d : Db) → IsSound d → IsSound (delete_dead_letter id d)
unfolding delete_dead_letter
delete_dead_letter-IsSound id d s = record {
  unique_keys = s.unique_keys;
  unique_ids = s.unique_ids;
  of_endpoint = s.of_endpoint;
  of_event = s.of_event;
  dead_of_event = λ ev none_left.
      delete_none (dead_letter_of ev) _ d.dead_letters (s.dead_of_event ev none_left);
  one_dead_letter = λ ev. delete_unique (dead_letter_of ev) _ d.dead_letters (s.one_dead_letter ev);
}
