-- ===== src/Runner/Resting.antt =====
-- An event that does not wait is left alone: nothing in src/worker/runner.rs takes up an event that is
-- DELIVERED or FAILED, nor one that a crash or a failing database leaves PROCESSING.
use aether_relay.Prelude.{
  ◌=?◌, ℕ, ◌<◌, String, ◌≡◌, refl, ◌∙◌, ◌≢◌, Bool, true, false, not, ◌&&◌, some, arith, eq_iff,
}
use aether_relay.Models.{EventStatus, received, processing, as_str, EventRow, AttemptRow}
use aether_relay.Store.{Outside, World}
use aether_relay.Store.Rows.{Db}
use aether_relay.Store.Tables.{count_where}
use aether_relay.Runner.{
  DispatchLoopConfig, comes_first, event_received, run_dispatch_once, run_dispatch_loop,
}
use aether_relay.Dispatcher.Writes.{WritesKeep}
use aether_relay.Store.Schema.{
  event_is, attempt_of, with_status, update_status, insert_attempt, replace_dead_letter,
}
use aether_relay.Store.Tables.Laws.{
  count_where-insert, count_where-update_kept, count_where_mono, first_where_counted,
}
use aether_relay.Runner.Claims.{waiting}
use aether_relay.Models.Laws.{as_str-injective}
use aether_relay.Runner.Rounds.{run_dispatch_once_keeps, rounds_keep}

abbrev in_other_status : String → EventStatus → EventRow → Bool
in_other_status id st e = event_is id e && not (e.status =? as_str st)

-- There is an event with this identifier, every such event has this status, and so many attempts
-- were made for it.
pub record IsResting (id : String) (st : EventStatus) (made : ℕ) (d : Db) : Type 0 where
  pub present : 0 < count_where (event_is id) d.events
  pub in_status : count_where (in_other_status id st) d.events ≡ 0
  pub attempts : count_where (attempt_of id) d.attempts ≡ made

ne_of_is :
    (id other : String) (x : EventRow)
    → other ≢ id
    → event_is other x ≡ true
    → event_is id x ≡ false
ne_of_is id other x ne h = ground (arith, eq_iff x.id other, eq_iff x.id id, ne)

module _ (id other : String) (ne : other ≢ id) (st : EventStatus) (made : ℕ) where
  update-IsResting :
      (s : String) (d : Db)
      → IsResting id st made d
      → IsResting id st made (update_status (event_is other) s d)
  unfolding update_status
  update-IsResting s d h =
      let same =
        count_where-update_kept (event_is other) (event_is id) (with_status s) d.events
          (λ x k. refl) in
      let same' =
        count_where-update_kept (event_is other) (in_other_status id st) (with_status s) d.events
          (λ x k. rw (ne_of_is id other x ne k) refl) in
      record {
        present = omega (arith, same, h.present);
        in_status = same' ∙ h.in_status;
        attempts = h.attempts;
      }

  attempt-IsResting :
      (row : AttemptRow) (d : Db)
      → row.event_id ≡ other
      → IsResting id st made d
      → IsResting id st made (insert_attempt row d)
  unfolding insert_attempt
  attempt-IsResting row d of_other h = record {
    present = h.present;
    in_status = h.in_status;
    attempts = ground (
      arith,
      count_where-insert (attempt_of id) row d.attempts,
      eq_iff row.event_id id,
      ne,
      h.attempts,
    );
  }

  writes_rest : WritesKeep (IsResting id st made) other
  unfolding replace_dead_letter
  writes_rest = record {
    on_status = λ s d h. update-IsResting (as_str s) d h;
    on_attempt = λ row d of_other _ h. attempt-IsResting row d of_other h;
    on_dead_letter = λ row d _ _ h. record {
      present = h.present;
      in_status = h.in_status;
      attempts = h.attempts;
    };
  }

-- A claim takes another event.
claim_other :
    (id : String) (st : EventStatus) (made : ℕ) (w : World) (e : EventRow)
    → st ≢ received
    → IsResting id st made w.db
    → waiting w ≡ some e
    → e.id ≢ id
claim_other id st made w e ne h waits same =
    let counted =
      first_where_counted comes_first event_received (event_is id) w.db.events e waits
        ((eq_iff e.id id).1 same) in
    let fewer =
      count_where_mono (λ x. event_received x && event_is id x) (in_other_status id st) w.db.events
        (λ x k. ground (
          arith,
          eq_iff x.status (as_str received),
          eq_iff x.status (as_str st),
          as_str-injective st received,
          ne,
        )) in
    absurd (omega (arith, counted, fewer, h.in_status))

module _ (o : Outside) (cfg : DispatchLoopConfig) (id : String) (st : EventStatus) (made : ℕ)
    (ne : st ≢ received) where
  round-IsResting :
      (w : World)
      → IsResting id st made w.db
      → IsResting id st made (run_dispatch_once o cfg w).1.db
  round-IsResting w h =
      run_dispatch_once_keeps o cfg (IsResting id st made) (λ _. IsResting id st made) (λ _ _ k. k)
        w
        (λ e waits.
          let apart = claim_other id st made w e ne h waits in
          (
            writes_rest id e.id apart st made,
            update-IsResting id e.id apart st made (as_str processing) w.db h,
          ))
        h

  -- An event that is not RECEIVED when the worker starts is still there after any number of rounds, with
  -- the same status and the same number of attempts, whatever fails or succeeds: one that is DELIVERED or
  -- FAILED stays so, and one that is PROCESSING, as a crash between its claim and its settling leaves it, is
  -- never settled, queued again or parked.
  pub run_dispatch_loop-IsResting :
      (random : ℕ → ℕ → ℕ → ℕ) (rounds : ℕ) (w : World)
      → IsResting id st made w.db
      → IsResting id st made (run_dispatch_loop o random cfg rounds w).world.db
  run_dispatch_loop-IsResting random rounds w h =
      rounds_keep o cfg random (IsResting id st made) round-IsResting rounds w h
