-- ===== src/System/Delivered.antt =====
-- DELIVERED and the answers: how src/worker/dispatcher.rs records and settles an attempt.
use aether_relay.Prelude.{
  leb, All, ℕ, ◌+◌, ◌≤◌, String, ◌≡◌, refl, ◌≢◌, Bool, true, false, Option, none, some, List, arith,
  eq_iff,
}
use aether_relay.Models.{received, delivered, failed, AttemptRow}
use aether_relay.Config.{AppConfig}
use aether_relay.Store.{Reply, response, send_error, Outside, World}
use aether_relay.Store.Rows.{Db}
use aether_relay.Dispatcher.{is_success, judge, attempt_row, park, move_on, settle}
use aether_relay.Runner.{from_app_config}
use aether_relay.System.{Operation, perform_all}
use aether_relay.System.Evidence.{counts_for, HasEvidence, reached-HasEvidence, attempt-HasEvidence}
use aether_relay.System.Evidence.Kept.{update-Keeps, dead_letter-Keeps, HasEvidence-operations}
use aether_relay.Crypto.Crates.{Crates}
use aether_relay.Api.Target.{Parsers}
use aether_relay.Store.Keeps.{Keeps, Keeps-bind, Keeps-call, Keeps-now_secs, Keeps-now_v7}
use aether_relay.Store.Tables.{count_where}
use aether_relay.Store.Triples.{
  Leads, Keeps-of_Leads, Leads-bind, Leads-statement, Leads-execute, Leads-of_Keeps, Leads-branch,
}
use aether_relay.Store.Tables.Laws.{count_where-insert}
use aether_relay.Store.Schema.{insert_attempt_breaks, insert_attempt}
use aether_relay.System.Operations.{IsAllowed, perform_all_keeps_allowed}

abbrev answered_well : Option ℕ → Bool
answered_well none = false
answered_well (some status) = is_success status

-- A reply that is a success is a response 2xx.
judge-answered_well :
    (reply : Reply) → (judge reply).success ≡ true → answered_well (judge reply).status_code ≡ true
unfolding judge
judge-answered_well (response status) h = ground arith
judge-answered_well (send_error e) h = cc h

-- The attempt was answered 2xx.
abbrev pub answered_row : AttemptRow → Bool
answered_row a = answered_well a.response_status

-- The tables are sound, and every event that is DELIVERED has an attempt that was answered 2xx.
abbrev pub Answered : Db → Type 0
Answered = HasEvidence delivered answered_row 1

module _ (o : Outside) (id : String) where
  -- After the attempt is recorded: a success is evidence.
  abbrev Recorded : Reply → Db → Type 0
  Recorded reply d =
      Answered d
      × ((judge reply).success ≡ true → 1 ≤ count_where (counts_for answered_row id) d.attempts)

  record_attempt :
      (reply : Reply) (attempt_id : String) (n now : ℕ) (d : Db)
      → insert_attempt_breaks (attempt_row attempt_id id n (judge reply) now) d ≡ none
      → Answered d
      → Recorded reply (insert_attempt (attempt_row attempt_id id n (judge reply) now) d)
  unfolding insert_attempt
  record_attempt reply attempt_id n now d fits h =
      let row = attempt_row attempt_id id n (judge reply) now in
      (
        unfold insert_attempt in attempt-HasEvidence delivered answered_row 1 row d fits h,
        λ won. ground (
          arith,
          count_where-insert (counts_for answered_row id) row d.attempts,
          judge-answered_well reply won,
          (eq_iff id id).1 refl,
        ),
      )

  park-Keeps :
      (endpoint_id : String) (reply : Reply) (now : ℕ)
      → Keeps Answered (park o id endpoint_id (judge reply) now)
  park-Keeps endpoint_id reply now =
      Keeps-bind _ _ (update-Keeps delivered answered_row 1 o id failed (λ e. cc e))
        λ _. dead_letter-Keeps delivered answered_row 1 o id endpoint_id (judge reply) now

  move_on-Leads :
      (max_attempts : ℕ) (endpoint_id : String) (n : ℕ) (reply : Reply) (now : ℕ)
      → Leads
          (Recorded reply)
          Answered
          Answered
          (move_on o max_attempts id endpoint_id n (judge reply) now)
  move_on-Leads max_attempts endpoint_id n reply now =
      Leads-branch (judge reply).success _ _
        (λ won.
          Leads-execute (λ d h. h.0) o _
            (λ d h. reached-HasEvidence delivered answered_row 1 id d (h.1 won) h.0))
        (λ _.
          Leads-branch (leb max_attempts n) _ _
            (λ _. Leads-of_Keeps (λ d h. h.0) (park-Keeps endpoint_id reply now))
            (λ _.
              Leads-of_Keeps (λ d h. h.0)
                (update-Keeps delivered answered_row 1 o id received (λ e. cc e))))

  settles :
      (max_attempts : ℕ) (endpoint_id : String) (n : ℕ) (reply : Reply)
      → Keeps Answered (settle o max_attempts id endpoint_id n (judge reply))
  unfolding settle
  settles max_attempts endpoint_id n reply = Keeps-bind _ _ (Keeps-call o) λ _.
      Keeps-bind _ _ (Keeps-now_v7 o) λ attempt_id. Keeps-bind _ _ (Keeps-now_secs o) λ now.
        Keeps-of_Leads (
          Leads-bind _ _
            (Leads-statement (λ d h. h) o _ _ _ (record_attempt reply attempt_id n now))
            (λ _. move_on-Leads max_attempts endpoint_id n reply now))

-- An event that is DELIVERED was answered: from a sound database in which every DELIVERED event has a
-- recorded attempt with a status from 200 to 299, any sequence of operations leads to such a database,
-- whatever calls fail and whatever is replied. The operations are those of the program; `transition_status`,
-- which no handler calls, is not used to move an event to DELIVERED.
pub perform_all-Answered :
    (o : Outside) (c : Crates) (json_object : List (String × String) → String) (parsers : Parsers)
    (cfg : AppConfig) (ops : List Operation) (w : World)
    → All (IsAllowed (λ to. to ≢ delivered)) ops
    → Answered w.db
    → Answered (perform_all o c json_object parsers cfg ops w).db
perform_all-Answered o c json_object parsers cfg ops w allowed h =
    perform_all_keeps_allowed o cfg
      (HasEvidence-operations delivered answered_row 1 o cfg (λ e. cc e) (λ e. cc e)
        (λ id endpoint_id n k url sent v _ held.
          (settles o id (from_app_config cfg).max_attempts endpoint_id (n + 1)
              (o.post k url sent)).from
            v held))
      c json_object parsers ops w allowed h
