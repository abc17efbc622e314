-- ===== src/Runner/Budget/Spending.antt =====
-- What the statements of src/worker/dispatcher.rs about an event that is at work make of what is left.
use aether_relay.Prelude.{
  leb, ◌=?◌, Bool-cases, ℕ, ◌+◌, ◌-◌, ◌*◌, ◌≤◌, ◌<◌, String, ◌≡◌, refl, inl, inr, Bool, false, ◌&&◌,
  ◌||◌, some, List, arith, eq_iff,
}
use aether_relay.Runner.Claims.{waiting}
use aether_relay.Runner.Budget.{
  times_mono, times_mono_right, attempts_left, left_of, budget, open_is, budget_of_others,
  budget_at_work, budget_split, budget_of_others-update, count-update, left_of-insert-le,
  budget_of_others-insert-le,
}
use aether_relay.Models.{
  EventStatus, received, processing, delivered, failed, as_str, EventRow, AttemptRow,
}
use aether_relay.Store.Schema.{
  event_is, with_status, update_status, insert_attempt, replace_dead_letter,
}
use aether_relay.Store.Tables.{update_where, count_where}
use aether_relay.Store.Rows.{Db}
use aether_relay.Dispatcher.Writes.{WritesKeep}
use aether_relay.Store.{World}
use aether_relay.Store.Tables.Laws.{
  count_where-update_same, count_where_mono, count_where-update_none, first_where_counted,
}
use aether_relay.Runner.{comes_first, event_received}
use aether_relay.Dispatcher.Settling.{next_status}

delivered_closed :
    (as_str delivered =? as_str received || as_str delivered =? as_str processing) ≡ false
unfolding as_str
delivered_closed = refl

failed_closed : (as_str failed =? as_str received || as_str failed =? as_str processing) ≡ false
unfolding as_str
failed_closed = refl

below_of_leb : (a b : ℕ) → leb a b ≡ false → b < a
below_of_leb a b h = ground arith

module _ (max_attempts : ℕ) (id : String) where
  pub at_work-update :
      (s : String) (d : Db)
      → budget_at_work max_attempts id (update_status (event_is id) s d)
        ≡ budget_at_work max_attempts id d
  at_work-update s d =
      rw (budget_of_others-update max_attempts id s d, count-update max_attempts id s d)
        (unfold update_status in refl)

  at_work-insert-le :
      (row : AttemptRow) (d : Db)
      → budget_at_work max_attempts id (insert_attempt row d) ≤ budget_at_work max_attempts id d
  unfolding insert_attempt
  at_work-insert-le row d = omega (
    arith,
    budget_of_others-insert-le max_attempts id row d,
    times_mono_right (count_where (event_is id) d.events) _ _
        (left_of-insert-le max_attempts row d id),
  )

  pub writes_spend : (m : ℕ) → WritesKeep (λ d. budget_at_work max_attempts id d ≤ m) id
  writes_spend m = record {
    on_status = λ st d h. rw (at_work-update (as_str st) d) h;
    on_attempt = λ row d _ _ h. omega (arith, at_work-insert-le row d, h);
    on_dead_letter = λ row d _ _ h. unfold replace_dead_letter budget_of_others in h;
  }

  -- An event that is taken up was open, and it is the only one with its identifier.
  pub at_work-claimed :
      (w : World) (e : EventRow)
      → count_where (event_is id) w.db.events ≤ 1
      → waiting w ≡ some e
      → e.id ≡ id
      → budget_at_work max_attempts id w.db ≤ budget max_attempts w.db
  at_work-claimed w e single waits is_id =
      let received_here =
        first_where_counted comes_first event_received (event_is id) w.db.events e waits
          ((eq_iff e.id id).1 is_id) in
      let open_here =
        count_where_mono (λ x. event_received x && event_is id x) (open_is id) w.db.events
          (λ x h. ground arith) in
      omega (
        arith,
        budget_split max_attempts id w.db,
        times_mono (count_where (event_is id) w.db.events) (count_where (open_is id) w.db.events)
            (left_of max_attempts w.db id) (omega (arith, single, received_here, open_here)),
      )

  none_open :
      (st : EventStatus) (events : List EventRow)
      → (as_str st =? as_str received || as_str st =? as_str processing) ≡ false
      → count_where (open_is id) (update_where (event_is id) (with_status (as_str st)) events) ≡ 0
  none_open st events closed =
      count_where-update_none (event_is id) (open_is id) (with_status (as_str st)) events
        (λ x h. ground arith) (λ x h. ground arith)

  still_one :
      (s : String) (events : List EventRow)
      → count_where (event_is id) events ≡ 1
      → count_where (open_is id) (update_where (event_is id) (with_status s) events) ≤ 1
  still_one s events single = omega (
    arith,
    count_where_mono (open_is id) (event_is id) (update_where (event_is id) (with_status s) events)
        (λ x h. ground arith),
    count_where-update_same (event_is id) (event_is id) (with_status s) events (λ x. refl),
  )

  -- Whatever the outcome, the event has less left after an attempt that is settled.
  pub event_spends :
      (made : ℕ) (success : Bool) (events : List EventRow)
      → count_where (event_is id) events ≡ 1
      → count_where (open_is id) (
            update_where
              (event_is id)
              (with_status (as_str (next_status max_attempts (made + 1) success)))
              events)
          * attempts_left max_attempts (made + 1)
        < attempts_left max_attempts made
  unfolding next_status attempts_left
  event_spends made success events single = elim (Bool-cases success) [
    | inl won ↦ rw (won, none_open delivered events delivered_closed) (omega arith)
    | inr lost ↦ elim (Bool-cases (leb max_attempts (made + 1))) [
      | inl spent ↦ rw (lost, spent, none_open failed events failed_closed) (omega arith)
      | inr left ↦
          rw (lost, left)
            (omega (
              arith,
              times_mono _ 1 (1 + (max_attempts - (made + 1 + 1)))
                  (still_one (as_str received) events single),
              below_of_leb max_attempts (made + 1) left,
            ))
    ]
  ]
