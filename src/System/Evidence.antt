-- ===== src/System/Evidence.antt =====
-- The status of an event and the attempts that src/worker/dispatcher.rs records for it: what a statement needs so
-- that the events with a status keep the attempts that they must have.
pub mod Cascading
pub mod Kept
use aether_relay.Prelude.{
  ◌=?◌, Bool-cases, ℕ, ◌≤◌, ◌<◌, String, ◌≡◌, subst, ◌≢◌, inl, inr, Bool, true, false, not, ◌&&◌,
  none, arith, eq_iff,
}
use aether_relay.Models.{
  EventStatus, received, as_str, EndpointRecord, EventRow, AttemptRow, DeadLetterRow,
}
use aether_relay.Models.Laws.{as_str-injective}
use aether_relay.Store.Rows.{Db}
use aether_relay.Store.Tables.{count_where}
use aether_relay.System.Sound.{
  IsSound, test_eq, status-IsSound, endpoint-IsSound, delete_attempts-IsSound,
  delete_dead_letter-IsSound,
}
use aether_relay.Store.Tables.Laws.{
  count_where-insert, count_where-update_kept, count_where-update_left, count_where-delete_other,
  count_where_mono,
}
use aether_relay.Store.Schema.{
  event_is, attempt_of, insert_endpoint_breaks, insert_endpoint, insert_event_breaks, insert_event,
  with_status, update_status, insert_attempt_breaks, insert_attempt, delete_attempts,
  replace_dead_letter_breaks, replace_dead_letter, delete_dead_letter,
}
use aether_relay.System.Inserts.{event-IsSound, attempt-IsSound, dead_letter-IsSound}

-- An event with the identifier that has the status.
abbrev pub in_state : EventStatus → String → EventRow → Bool
in_state st id e = event_is id e && (e.status =? as_str st)

-- An attempt for the event, of a kind.
abbrev pub counts_for : (AttemptRow → Bool) → String → AttemptRow → Bool
counts_for q id a = attempt_of id a && q a

-- The tables are sound, and every event that has the status has enough attempts of the kind.
pub record HasEvidence (goal : EventStatus) (q : AttemptRow → Bool) (enough : ℕ) (d : Db)
    : Type 0 where
  pub sound : IsSound d
  pub evidence :
      (id : String)
      → 0 < count_where (in_state goal id) d.events
      → enough ≤ count_where (counts_for q id) d.attempts

pub and_left : (a b : Bool) → (a && b) ≡ true → a ≡ true
and_left a b h = ground arith

module _ (goal : EventStatus) (q : AttemptRow → Bool) (enough : ℕ) where
  pub not_reached :
      (id : String) (row : EventRow)
      → received ≢ goal
      → row.status ≡ as_str received
      → in_state goal id row ≡ false
  not_reached id row new is_received =
      ground
        (arith, eq_iff row.status (as_str goal), as_str-injective received goal, new, is_received)

  pub status-HasEvidence :
      (p : EventRow → Bool) (st : EventStatus) (d : Db)
      → st ≢ goal
      → HasEvidence goal q enough d
      → HasEvidence goal q enough (update_status p (as_str st) d)
  unfolding update_status
  status-HasEvidence p st d ne h = record {
    sound = unfold update_status in status-IsSound p st d h.sound;
    evidence = λ id some_left.
        let left =
          count_where-update_left p (in_state goal id) (with_status (as_str st)) d.events (λ x _.
            ground (arith, eq_iff (as_str st) (as_str goal), as_str-injective st goal, ne)) in
        let fewer =
          count_where_mono (λ x. in_state goal id x && not (p x)) (in_state goal id) d.events
            (λ x k. ground arith) in
        h.evidence id (omega (arith, left, fewer, some_left));
  }

  -- An event may reach the status when there is evidence.
  pub reached-HasEvidence :
      (id : String) (d : Db)
      → enough ≤ count_where (counts_for q id) d.attempts
      → HasEvidence goal q enough d
      → HasEvidence goal q enough (update_status (event_is id) (as_str goal) d)
  unfolding update_status
  reached-HasEvidence id d confirmed h = record {
    sound = unfold update_status in status-IsSound (event_is id) goal d h.sound;
    evidence = λ other some_left. elim (Bool-cases (id =? other)) [
      | inl same ↦
          subst (λ t. enough ≤ count_where (counts_for q t) d.attempts) (test_eq id other same)
            confirmed
      | inr differ ↦
          let kept =
            count_where-update_kept (event_is id) (in_state goal other) (with_status (as_str goal))
              d.events
              (λ x k. ground (arith, eq_iff x.id id, eq_iff x.id other, eq_iff id other, differ)) in
          h.evidence other (omega (arith, kept, some_left))
    ];
  }

  pub event-HasEvidence :
      (row : EventRow) (d : Db)
      → received ≢ goal
      → row.status ≡ as_str received
      → insert_event_breaks row d ≡ none
      → HasEvidence goal q enough d
      → HasEvidence goal q enough (insert_event row d)
  unfolding insert_event
  event-HasEvidence row d new is_received fits h = record {
    sound = unfold insert_event in event-IsSound row d fits h.sound;
    evidence = λ id some_left. h.evidence id (
        ground (
          arith,
          count_where-insert (in_state goal id) row d.events,
          not_reached id row new is_received,
          some_left,
        ));
  }

  pub attempt-HasEvidence :
      (row : AttemptRow) (d : Db)
      → insert_attempt_breaks row d ≡ none
      → HasEvidence goal q enough d
      → HasEvidence goal q enough (insert_attempt row d)
  unfolding insert_attempt
  attempt-HasEvidence row d fits h = record {
    sound = unfold insert_attempt in attempt-IsSound row d fits h.sound;
    evidence = λ id some_left.
        let before = h.evidence id some_left in
        ground (arith, count_where-insert (counts_for q id) row d.attempts, before);
  }

  -- The attempts of an event may go when it has not the status.
  pub delete_attempts-HasEvidence :
      (id : String) (d : Db)
      → count_where (in_state goal id) d.events ≡ 0
      → HasEvidence goal q enough d
      → HasEvidence goal q enough (delete_attempts id d)
  unfolding delete_attempts
  delete_attempts-HasEvidence id d none_there h = record {
    sound = unfold delete_attempts in delete_attempts-IsSound id d h.sound;
    evidence = λ other some_left. elim (Bool-cases (id =? other)) [
      | inl same ↦ absurd (
          omega (
            arith,
            some_left,
            subst (λ t. count_where (in_state goal t) d.events ≡ 0) (test_eq id other same)
                none_there,
          ))
      | inr differ ↦
          let kept =
            count_where-delete_other (attempt_of id) (counts_for q other) d.attempts (λ a k.
              ground
                (arith, eq_iff a.event_id id, eq_iff a.event_id other, eq_iff id other, differ)) in
          omega (arith, kept, h.evidence other some_left)
    ];
  }

  pub endpoint-HasEvidence :
      (row : EndpointRecord) (d : Db)
      → insert_endpoint_breaks row d ≡ none
      → HasEvidence goal q enough d
      → HasEvidence goal q enough (insert_endpoint row d)
  unfolding insert_endpoint
  endpoint-HasEvidence row d _ h = record {
    sound = unfold insert_endpoint in endpoint-IsSound row d h.sound;
    evidence = h.evidence;
  }

  pub dead_letter-HasEvidence :
      (row : DeadLetterRow) (d : Db)
      → replace_dead_letter_breaks row d ≡ none
      → HasEvidence goal q enough d
      → HasEvidence goal q enough (replace_dead_letter row d)
  unfolding replace_dead_letter
  dead_letter-HasEvidence row d fits h = record {
    sound = unfold replace_dead_letter in dead_letter-IsSound row d fits h.sound;
    evidence = h.evidence;
  }

  pub delete_dead_letter-HasEvidence :
      (id : String) (d : Db)
      → HasEvidence goal q enough d
      → HasEvidence goal q enough (delete_dead_letter id d)
  unfolding delete_dead_letter
  delete_dead_letter-HasEvidence id d h = record {
    sound = unfold delete_dead_letter in delete_dead_letter-IsSound id d h.sound;
    evidence = h.evidence;
  }
