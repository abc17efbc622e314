-- ===== src/System/Integrity.antt =====
-- The tables stay sound under every operation, the cascade of a deleted endpoint included.
use aether_relay.Prelude.{
  ltb, ◌=?◌, Bool-cases, ℕ, String, ◌≡◌, refl, sym, ◌∙◌, subst, ◌≢◌, inl, inr, Bool, true, false,
  ◌&&◌, List, arith, eq_iff,
}
use aether_relay.Config.{AppConfig}
use aether_relay.Models.{EventRow}
use aether_relay.Store.{Outside, World}
use aether_relay.Store.Rows.{Db}
use aether_relay.Store.Tables.{delete_where, count_where}
use aether_relay.Store.Tables.Laws.{
  count_where-delete_self, count_where-delete_other, count_where_mono, count_where_split,
}
use aether_relay.Store.Tables.Counts.{delete_none, delete_unique, delete_covered}
use aether_relay.Store.Schema.{
  endpoint_is, event_is, event_of_endpoint, event_has_key, dead_letter_of, exists_where, cascades,
  cascade, delete_endpoint_rows,
}
use aether_relay.Crypto.Crates.{Crates}
use aether_relay.Api.Target.{Parsers}
use aether_relay.System.{Operation, perform_all}
use aether_relay.System.Writes.{AllWritesKeep}
use aether_relay.System.Handlers.{perform_all_keeps}
use aether_relay.System.Sound.{
  IsSound, test_eq, status-IsSound, endpoint-IsSound, delete_attempts-IsSound,
  delete_dead_letter-IsSound,
}
use aether_relay.System.Inserts.{event-IsSound, attempt-IsSound, dead_letter-IsSound}

and_swap : (a b : Bool) → (a && b) ≡ true → (b && a) ≡ true
and_swap true true h = refl
and_swap true false h = cc
and_swap false b h = cc

not_positive : (n : ℕ) → ltb 0 n ≡ false → n ≡ 0
not_positive n h = ground arith

-- An event that the cascade has not taken, and of which no row is left, had no row.
no_event_before :
    (id ev : String) (events : List EventRow)
    → cascades id events ev ≡ false
    → count_where (event_is ev) (delete_where (event_of_endpoint id) events) ≡ 0
    → count_where (event_is ev) events ≡ 0
no_event_before id ev events spared none_left =
    let taken =
      not_positive (count_where (λ e. event_is ev e && event_of_endpoint id e) events) spared in
    let fewer =
      count_where_mono (λ e. event_of_endpoint id e && event_is ev e)
        (λ e. event_is ev e && event_of_endpoint id e) events
        (λ e h. and_swap (event_of_endpoint id e) (event_is ev e) h) in
    omega (
      arith,
      taken,
      fewer,
      none_left,
      count_where_split (event_of_endpoint id) (event_is ev) events,
    )

-- Of rows with an event, none is left without one.
no_orphans :
    {A : Type 0} (event_of : A → String) (id ev : String) (events : List EventRow) (rows : List A)
    → (count_where (event_is ev) events ≡ 0 → count_where (λ x. event_of x =? ev) rows ≡ 0)
    → count_where (event_is ev) (delete_where (event_of_endpoint id) events) ≡ 0
    → count_where (λ x. event_of x =? ev) (delete_where (λ x. cascades id events (event_of x)) rows)
      ≡ 0
no_orphans event_of id ev events rows sound none_left = elim (Bool-cases (cascades id events ev)) [
  | inl taken ↦
      delete_covered (λ x. event_of x =? ev) (λ x. cascades id events (event_of x)) rows
        (λ x own.
          subst (λ t. cascades id events t ≡ true) (sym (test_eq (event_of x) ev own)) taken)
  | inr spared ↦
      delete_none (λ x. event_of x =? ev) (λ x. cascades id events (event_of x)) rows
        (sound (no_event_before id ev events spared none_left))
]

true-ne-false : true ≢ false
true-ne-false h = cc

other_name :
    (id other own : String) → (id =? other) ≡ false → (own =? other) ≡ true → (own =? id) ≡ false
other_name id other own differ of_other = elim (Bool-cases (own =? id)) [
  | inl same ↦
      let path = sym (test_eq own id same) ∙ test_eq own other of_other in
      absurd (true-ne-false (sym ((eq_iff id other).1 path) ∙ differ))
  | inr other_one ↦ other_one
]

-- Of an endpoint without a row, no event is left.
no_events_left :
    (id other : String) (d : Db)
    → IsSound d
    → count_where (endpoint_is other) (delete_where (endpoint_is id) d.endpoints) ≡ 0
    → count_where (event_of_endpoint other) (delete_where (event_of_endpoint id) d.events) ≡ 0
no_events_left id other d s none_left = elim (Bool-cases (id =? other)) [
  | inl same ↦
      subst
        (λ t. count_where (event_of_endpoint t) (delete_where (event_of_endpoint id) d.events) ≡ 0)
        (test_eq id other same) (count_where-delete_self (event_of_endpoint id) d.events)
  | inr differ ↦ delete_none (event_of_endpoint other) (event_of_endpoint id) d.events (
      s.of_endpoint other (
        sym (
          count_where-delete_other (endpoint_is id) (endpoint_is other) d.endpoints
            (λ e own. other_name id other e.id differ own))
        ∙ none_left))
]

cascade-IsSound : (found : Bool) (id : String) (d : Db) → IsSound d → IsSound (cascade found id d)
cascade-IsSound false id d s = s
cascade-IsSound true id d s = record {
  unique_keys = λ e k. delete_unique (event_has_key e k) _ d.events (s.unique_keys e k);
  unique_ids = λ ev. delete_unique (event_is ev) _ d.events (s.unique_ids ev);
  of_endpoint = λ other none_left. no_events_left id other d s none_left;
  of_event = λ ev none_left.
      no_orphans (λ a. a.event_id) id ev d.events d.attempts (s.of_event ev) none_left;
  dead_of_event = λ ev none_left.
      no_orphans (λ r. r.event_id) id ev d.events d.dead_letters (s.dead_of_event ev) none_left;
  one_dead_letter = λ ev. delete_unique (dead_letter_of ev) _ d.dead_letters (s.one_dead_letter ev);
}

delete_endpoint-IsSound : (id : String) (d : Db) → IsSound d → IsSound (delete_endpoint_rows id d)
unfolding delete_endpoint_rows
delete_endpoint-IsSound id d s = cascade-IsSound (exists_where (endpoint_is id) d.endpoints) id d s

pub IsSound-writes : AllWritesKeep IsSound
IsSound-writes = record {
  on_status = status-IsSound;
  on_endpoint = λ row d _ s. endpoint-IsSound row d s;
  on_event = λ row d _ fits s. event-IsSound row d fits s;
  on_attempt = attempt-IsSound;
  on_dead_letter = dead_letter-IsSound;
  on_delete_attempts = delete_attempts-IsSound;
  on_delete_dead_letter = delete_dead_letter-IsSound;
  on_delete_endpoint = delete_endpoint-IsSound;
}

-- From a sound database, any sequence of operations leads to a sound database, whatever calls fail and
-- whatever comes from outside: no two events share an endpoint and an idempotency key, identifiers of events
-- are unique, an event belongs to an endpoint that exists, an attempt and a dead letter to an event that
-- exists, and an event has at most one dead letter.
pub perform_all-IsSound :
    (o : Outside) (c : Crates) (json_object : List (String × String) → String) (parsers : Parsers)
    (cfg : AppConfig) (ops : List Operation) (w : World)
    → IsSound w.db
    → IsSound (perform_all o c json_object parsers cfg ops w).db
perform_all-IsSound o c json_object parsers cfg ops w s =
    perform_all_keeps o IsSound-writes c json_object parsers cfg ops w s
