-- ===== src/Runner/Budget.antt =====
-- The attempts that the events of the queue have left, as src/worker/dispatcher.rs counts them: a measure of
-- the work before src/worker/runner.rs.
pub mod Spending
pub mod Passes
pub mod Draining
use aether_relay.Prelude.{
  ◌=?◌, ℕ, ◌+◌, ◌-◌, ◌*◌, ◌≤◌, String, ◌≡◌, refl, ap, Bool, not, ◌&&◌, ◌||◌, arith, eq_iff,
}
use aether_relay.Store.Tables.Sums.{
  sum_where, sum_where_split, sum_where_const, sum_where_mono, sum_where-update_kept,
}
use aether_relay.Store.Tables.Laws.{count_where-insert, count_where-update_same, count_where_mono}
use aether_relay.Store.Schema.{event_is, attempt_of, with_status, update_status, insert_attempt}
use aether_relay.Store.Tables.{count_where}
use aether_relay.Models.{received, processing, as_str, EventRow, AttemptRow}
use aether_relay.Store.Rows.{Db}

pub times_mono : (a b c : ℕ) → a ≤ b → a * c ≤ b * c
times_mono a b c h = grind arith

pub times_mono_right : (a b c : ℕ) → b ≤ c → a * b ≤ a * c
times_mono_right a b c h = grind arith

-- An event that the worker may still take up or is taking up.
abbrev pub is_open : EventRow → Bool
is_open e = e.status =? as_str received || e.status =? as_str processing

-- After `made` attempts: one more, and as many more as the budget allows.
unfoldable pub attempts_left : ℕ → ℕ → ℕ
attempts_left max_attempts made = 1 + (max_attempts - (made + 1))

abbrev pub left_of : ℕ → Db → String → ℕ
left_of max_attempts d id = attempts_left max_attempts (count_where (attempt_of id) d.attempts)

-- What all open events have left.
unfoldable pub budget : ℕ → Db → ℕ
budget max_attempts d = sum_where is_open (λ e. left_of max_attempts d e.id) d.events

abbrev pub open_is : String → EventRow → Bool
open_is id e = is_open e && event_is id e

abbrev open_other : String → EventRow → Bool
open_other id e = is_open e && not (event_is id e)

module _ (max_attempts : ℕ) (id : String) where
  -- What the other events have left.
  unfoldable pub budget_of_others : Db → ℕ
  budget_of_others d = sum_where (open_other id) (λ e. left_of max_attempts d e.id) d.events

  -- An event that is at work counts whatever its status.
  abbrev pub budget_at_work : Db → ℕ
  budget_at_work d =
      budget_of_others d + count_where (event_is id) d.events * left_of max_attempts d id

  pub budget_split :
      (d : Db)
      → budget max_attempts d
        ≡ budget_of_others d + count_where (open_is id) d.events * left_of max_attempts d id
  unfolding budget budget_of_others
  budget_split d = omega (
    arith,
    sum_where_split (event_is id) is_open (λ e. left_of max_attempts d e.id) d.events,
    sum_where_const (open_is id) (λ e. left_of max_attempts d e.id) (left_of max_attempts d id)
        d.events (λ e h. ap (left_of max_attempts d) ((eq_iff e.id id).0 (ground arith))),
  )

  pub budget-le-at_work : (d : Db) → budget max_attempts d ≤ budget_at_work d
  budget-le-at_work d = omega (
    arith,
    budget_split d,
    times_mono _ _ (left_of max_attempts d id)
        (count_where_mono (open_is id) (event_is id) d.events (λ e h. ground arith)),
  )

  -- An update of the status of the event at work changes neither part.
  pub budget_of_others-update :
      (s : String) (d : Db)
      → budget_of_others (update_status (event_is id) s d) ≡ budget_of_others d
  unfolding budget_of_others update_status
  budget_of_others-update s d =
      sum_where-update_kept (event_is id) (open_other id) (with_status s)
        (λ e. left_of max_attempts d e.id) d.events (λ e h. ground arith) (λ e. refl)

  pub count-update :
      (s : String) (d : Db)
      → count_where (event_is id) (update_status (event_is id) s d).events
        ≡ count_where (event_is id) d.events
  unfolding update_status
  count-update s d =
      count_where-update_same (event_is id) (event_is id) (with_status s) d.events (λ e. refl)

pub left_of-insert-le :
    (max_attempts : ℕ) (row : AttemptRow) (d : Db) (id : String)
    → left_of max_attempts (insert_attempt row d) id ≤ left_of max_attempts d id
unfolding insert_attempt attempts_left
left_of-insert-le max_attempts row d id =
    ground (arith, count_where-insert (attempt_of id) row d.attempts)

pub budget_of_others-insert-le :
    (max_attempts : ℕ) (id : String) (row : AttemptRow) (d : Db)
    → budget_of_others max_attempts id (insert_attempt row d) ≤ budget_of_others max_attempts id d
unfolding budget_of_others insert_attempt
budget_of_others-insert-le max_attempts id row d =
    sum_where_mono _ _ _ d.events (λ e. left_of-insert-le max_attempts row d e.id)
