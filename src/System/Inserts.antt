-- ===== src/System/Inserts.antt =====
-- The INSERTs with foreign keys and UNIQUE columns keep the tables sound.
use aether_relay.Prelude.{
  ltb, ◌=?◌, Bool-cases, ℕ, String, ◌≡◌, refl, sym, ◌∙◌, subst, ◌≢◌, inl, inr, Bool, true, false,
  ◌&&◌, ◌||◌, none, List, arith, eq_iff,
}
use aether_relay.Models.{EventRow, AttemptRow, DeadLetterRow}
use aether_relay.Store.Rows.{Db}
use aether_relay.Store.Tables.{delete_where, count_where}
use aether_relay.Store.Tables.Counts.{
  insert_unique, insert_other, before_insert, delete_none, delete_unique, delete_covered,
}
use aether_relay.Store.Schema.{
  endpoint_is, event_is, event_of_endpoint, event_has_key, attempt_of, dead_letter_is,
  dead_letter_of, exists_where, insert_event_breaks, insert_event, insert_attempt_breaks,
  insert_attempt, replace_dead_letter_breaks, replaced_by, replace_dead_letter,
}
use aether_relay.System.Sound.{IsSound, test_eq}

-- What an INSERT into `incoming_events` that breaks no constraint knows.
record Fits (row : EventRow) (d : Db) : Type 0 where
  new_id : count_where (event_is row.id) d.events ≡ 0
  new_key : count_where (event_has_key row.endpoint_id row.idempotency_key) d.events ≡ 0
  has_endpoint : exists_where (endpoint_is row.endpoint_id) d.endpoints ≡ true

Fits-of : (row : EventRow) (d : Db) → insert_event_breaks row d ≡ none → Fits row d
unfolding insert_event_breaks
Fits-of row d h = record {
  new_id = ground arith;
  new_key = ground arith;
  has_endpoint = ground arith;
}

attempt_parent :
    (row : AttemptRow) (d : Db)
    → insert_attempt_breaks row d ≡ none
    → exists_where (event_is row.event_id) d.events ≡ true
unfolding insert_attempt_breaks
attempt_parent row d h = ground arith

dead_letter_parent :
    (row : DeadLetterRow) (d : Db)
    → replace_dead_letter_breaks row d ≡ none
    → exists_where (event_is row.event_id) d.events ≡ true
unfolding replace_dead_letter_breaks
dead_letter_parent row d h = ground arith

and_parts : (a b : Bool) → (a && b) ≡ true → (a ≡ true) × (b ≡ true)
and_parts true b h = (refl, h)
and_parts false b h = cc

-- A key that is new is new under whatever name it is looked up.
new_key_at :
    (row : EventRow) (e k : String) (events : List EventRow)
    → event_has_key e k row ≡ true
    → count_where (event_has_key row.endpoint_id row.idempotency_key) events ≡ 0
    → count_where (event_has_key e k) events ≡ 0
new_key_at row e k events own new_key =
    let (of_e, of_k) = and_parts (row.endpoint_id =? e) (row.idempotency_key =? k) own in
    subst (λ t. count_where (event_has_key e t) events ≡ 0) (test_eq row.idempotency_key k of_k)
      (subst (λ t. count_where (event_has_key t row.idempotency_key) events ≡ 0)
        (test_eq row.endpoint_id e of_e) new_key)

or_right : (a b : Bool) → b ≡ true → (a || b) ≡ true
or_right true b h = refl
or_right false b h = h

-- A dead letter of the same event is replaced.
replaced :
    (row r : DeadLetterRow) (id : String)
    → dead_letter_of id row ≡ true
    → dead_letter_of id r ≡ true
    → replaced_by row r ≡ true
replaced row r id own of_id = or_right (dead_letter_is row.id r) (dead_letter_of row.event_id r) (
    (eq_iff r.event_id row.event_id).1
      (test_eq r.event_id id of_id ∙ sym (test_eq row.event_id id own)))

nothing_found : (n : ℕ) → n ≡ 0 → ltb 0 n ≢ true
nothing_found n h k = ground arith

-- A row whose parent exists is no row of a parent that does not.
other_parent :
    {A : Type 0} (key : A → String) (parents : List A) (own other : String)
    → exists_where (λ x. key x =? own) parents ≡ true
    → count_where (λ x. key x =? other) parents ≡ 0
    → (own =? other) ≡ false
other_parent key parents own other found none_left = elim (Bool-cases (own =? other)) [
  | inl same ↦
      let none_own =
        subst (λ t. count_where (λ x. key x =? t) parents ≡ 0) (sym (test_eq own other same))
          none_left in
      absurd (nothing_found _ none_own found)
  | inr differ ↦ differ
]

pub event-IsSound :
    (row : EventRow) (d : Db)
    → insert_event_breaks row d ≡ none
    → IsSound d
    → IsSound (insert_event row d)
unfolding insert_event
event-IsSound row d fits s =
    let f = Fits-of row d fits in
    record {
      unique_keys = λ e k.
          insert_unique (event_has_key e k) row d.events
            (λ own. new_key_at row e k d.events own f.new_key) (s.unique_keys e k);
      unique_ids = λ id.
          insert_unique (event_is id) row d.events
            (λ own.
              subst (λ t. count_where (event_is t) d.events ≡ 0) (test_eq row.id id own) f.new_id)
            (s.unique_ids id);
      of_endpoint = λ id none_left.
          insert_other (event_of_endpoint id) row d.events
            (other_parent (λ e. e.id) d.endpoints row.endpoint_id id f.has_endpoint none_left)
            (s.of_endpoint id none_left);
      of_event = λ id none_left. s.of_event id (before_insert (event_is id) row d.events none_left);
      dead_of_event =
          λ id none_left. s.dead_of_event id (before_insert (event_is id) row d.events none_left);
      one_dead_letter = s.one_dead_letter;
    }

pub attempt-IsSound :
    (row : AttemptRow) (d : Db)
    → insert_attempt_breaks row d ≡ none
    → IsSound d
    → IsSound (insert_attempt row d)
unfolding insert_attempt
attempt-IsSound row d fits s = record {
  unique_keys = s.unique_keys;
  unique_ids = s.unique_ids;
  of_endpoint = s.of_endpoint;
  of_event = λ id none_left.
      insert_other (attempt_of id) row d.attempts
        (other_parent (λ e. e.id) d.events row.event_id id (attempt_parent row d fits) none_left)
        (s.of_event id none_left);
  dead_of_event = s.dead_of_event;
  one_dead_letter = s.one_dead_letter;
}

pub dead_letter-IsSound :
    (row : DeadLetterRow) (d : Db)
    → replace_dead_letter_breaks row d ≡ none
    → IsSound d
    → IsSound (replace_dead_letter row d)
unfolding replace_dead_letter
dead_letter-IsSound row d fits s = record {
  unique_keys = s.unique_keys;
  unique_ids = s.unique_ids;
  of_endpoint = s.of_endpoint;
  of_event = s.of_event;
  dead_of_event = λ id none_left.
      insert_other (dead_letter_of id) row (delete_where (replaced_by row) d.dead_letters)
        (other_parent (λ e. e.id) d.events row.event_id id (dead_letter_parent row d fits)
          none_left)
        (delete_none (dead_letter_of id) (replaced_by row) d.dead_letters
          (s.dead_of_event id none_left));
  one_dead_letter = λ id.
      insert_unique (dead_letter_of id) row (delete_where (replaced_by row) d.dead_letters)
        (λ own.
          delete_covered (dead_letter_of id) (replaced_by row) d.dead_letters
            (λ r of_id. replaced row r id own of_id))
        (delete_unique (dead_letter_of id) (replaced_by row) d.dead_letters (s.one_dead_letter id));
}
