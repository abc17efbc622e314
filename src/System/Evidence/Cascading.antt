-- ===== src/System/Evidence/Cascading.antt =====
-- The attempts of the events that are left when src/api/endpoints.rs deletes an endpoint, by the cascade of
-- src/db/migrations.rs.
use aether_relay.Prelude.{
  Bool-cases, ℕ, ◌<◌, String, ◌≡◌, sym, subst, inl, inr, Bool, true, false, ◌&&◌, arith,
}
use aether_relay.Store.Rows.{Db}
use aether_relay.Store.Tables.{delete_where, count_where}
use aether_relay.System.Sound.{IsSound, test_eq}
use aether_relay.Store.Tables.Laws.{
  count_where-delete-le, count_where-delete_other, count_where_mono, count_where_split,
}
use aether_relay.Store.Schema.{
  endpoint_is, event_is, event_of_endpoint, exists_where, cascades, cascade, delete_endpoint_rows,
}
use aether_relay.System.Integrity.{IsSound-writes}
use aether_relay.System.Evidence.{in_state, counts_for, HasEvidence, and_left}
use aether_relay.Models.{EventStatus, AttemptRow}

-- Of an event that the cascade takes, no row is left, since its identifier is its own.
cascade_leaves :
    (endpoint_id id : String) (d : Db)
    → IsSound d
    → 0 < count_where (event_is id) (delete_where (event_of_endpoint endpoint_id) d.events)
    → cascades endpoint_id d.events id ≡ false
cascade_leaves endpoint_id id d s some_left = elim (Bool-cases (cascades endpoint_id d.events id)) [
  | inl taken ↦
      let counted =
        count_where_mono (λ e. event_is id e && event_of_endpoint endpoint_id e)
          (λ e. event_of_endpoint endpoint_id e && event_is id e) d.events (λ e k. ground arith) in
      let split = count_where_split (event_of_endpoint endpoint_id) (event_is id) d.events in
      absurd (ground (arith, counted, split, s.unique_ids id, some_left, taken))
  | inr spared ↦ spared
]

module _ (goal : EventStatus) (q : AttemptRow → Bool) (enough : ℕ) where
  cascade-HasEvidence :
      (found : Bool) (endpoint_id : String) (d : Db)
      → HasEvidence goal q enough d
      → IsSound (cascade found endpoint_id d)
      → HasEvidence goal q enough (cascade found endpoint_id d)
  cascade-HasEvidence false endpoint_id d h s = h
  cascade-HasEvidence true endpoint_id d h s = record {
    sound = s;
    evidence = λ id some_left.
        let event_left =
          count_where_mono (in_state goal id) (event_is id)
            (delete_where (event_of_endpoint endpoint_id) d.events) (λ e k. ground arith) in
        let spared =
          cascade_leaves endpoint_id id d h.sound (omega (arith, event_left, some_left)) in
        let before = h.evidence id (
          omega (
            arith,
            some_left,
            count_where-delete-le (event_of_endpoint endpoint_id) (in_state goal id) d.events,
          )) in
        let kept =
          count_where-delete_other (λ a. cascades endpoint_id d.events a.event_id) (counts_for q id)
            d.attempts
            (λ a own.
              subst (λ t. cascades endpoint_id d.events t ≡ false)
                (sym (test_eq a.event_id id (and_left _ _ own))) spared) in
        omega (arith, kept, before);
  }

  pub delete_endpoint-HasEvidence :
      (id : String) (d : Db)
      → HasEvidence goal q enough d
      → HasEvidence goal q enough (delete_endpoint_rows id d)
  unfolding delete_endpoint_rows
  delete_endpoint-HasEvidence id d h =
      cascade-HasEvidence (exists_where (endpoint_is id) d.endpoints) id d h
        (unfold delete_endpoint_rows in IsSound-writes.on_delete_endpoint id d h.sound)
