-- ===== src/System/Exhausted.antt =====
-- FAILED and the retry budget: how src/worker/dispatcher.rs counts the attempts of an event and parks it.
use aether_relay.Prelude.{
  leb, All, ℕ, ◌+◌, ◌≤◌, String, ◌≡◌, refl, ◌≢◌, Bool, true, none, List, [], ◌∷◌, arith, eq_iff,
}
use aether_relay.Models.{received, delivered, failed, AttemptRow}
use aether_relay.Config.{AppConfig}
use aether_relay.Store.{Outside, World}
use aether_relay.Store.Rows.{Db}
use aether_relay.Store.Tables.{count_where}
use aether_relay.Dispatcher.{DispatchResult, judge, attempt_row, park, move_on, settle}
use aether_relay.Runner.{from_app_config}
use aether_relay.Crypto.Crates.{Crates}
use aether_relay.Api.Target.{Parsers}
use aether_relay.System.{Operation, perform_all}
use aether_relay.System.Evidence.{counts_for, HasEvidence, reached-HasEvidence, attempt-HasEvidence}
use aether_relay.System.Evidence.Kept.{update-Keeps, dead_letter-Keeps, HasEvidence-operations}
use aether_relay.System.Operations.{IsAllowed, perform_all_keeps_allowed}
use aether_relay.Store.Triples.{
  Leads, Leads-bind, Leads-statement, Leads-execute, Leads-of_Keeps, Leads-of_kept, Keeps-of_end,
  Leads-branch,
}
use aether_relay.Store.Keeps.{Keeps-call, Keeps-now_secs, Keeps-now_v7}
use aether_relay.Store.Schema.{attempt_of, insert_attempt_breaks, insert_attempt}
use aether_relay.Store.Tables.Laws.{count_where-insert}

abbrev any_row : AttemptRow → Bool
any_row a = true

-- The tables are sound, and every event that is FAILED has so many attempts or more.
abbrev pub Exhausted : ℕ → Db → Type 0
Exhausted max_attempts = HasEvidence failed any_row max_attempts

module _ (o : Outside) (max_attempts : ℕ) (id : String) where
  -- The attempts of the event are so many at least.
  abbrev Tried : ℕ → Db → Type 0
  Tried n d = Exhausted max_attempts d × (n ≤ count_where (counts_for any_row id) d.attempts)

  counted_rows :
      (rows : List AttemptRow)
      → count_where (counts_for any_row id) rows ≡ count_where (attempt_of id) rows
  unfolding count_where
  counted_rows [] = refl
  counted_rows (a ∷ rows) = ground (arith, counted_rows rows)

  record_attempt :
      (r : DispatchResult) (attempt_id : String) (n now : ℕ) (d : Db)
      → insert_attempt_breaks (attempt_row attempt_id id (n + 1) r now) d ≡ none
      → Tried n d
      → Tried (n + 1) (insert_attempt (attempt_row attempt_id id (n + 1) r now) d)
  unfolding insert_attempt
  record_attempt r attempt_id n now d fits (h, tried) =
      let row = attempt_row attempt_id id (n + 1) r now in
      (
        unfold insert_attempt in attempt-HasEvidence failed any_row max_attempts row d fits h,
        ground (
          arith,
          count_where-insert (counts_for any_row id) row d.attempts,
          (eq_iff id id).1 refl,
          tried,
        ),
      )

  park-Leads :
      (endpoint_id : String) (n : ℕ) (r : DispatchResult) (now : ℕ)
      → max_attempts ≤ n
      → Leads
          (Tried n)
          (Exhausted max_attempts)
          (Exhausted max_attempts)
          (park o id endpoint_id r now)
  park-Leads endpoint_id n r now spent =
      Leads-bind {M = Exhausted max_attempts} _ _
        (Leads-execute (λ d h. h.0) o _
          (λ d h.
            reached-HasEvidence failed any_row max_attempts id d (omega (arith, spent, h.1)) h.0))
        (λ _.
          Leads-of_Keeps (λ _ h. h)
            (dead_letter-Keeps failed any_row max_attempts o id endpoint_id r now))

  move_on-Leads :
      (endpoint_id : String) (n : ℕ) (r : DispatchResult) (now : ℕ)
      → Leads
          (Tried n)
          (Exhausted max_attempts)
          (Exhausted max_attempts)
          (move_on o max_attempts id endpoint_id n r now)
  move_on-Leads endpoint_id n r now =
      Leads-branch r.success _ _
        (λ _.
          Leads-of_Keeps (λ d h. h.0)
            (update-Keeps failed any_row max_attempts o id delivered (λ e. cc e)))
        (λ _.
          Leads-branch (leb max_attempts n) _ _
            (λ spent. park-Leads endpoint_id n r now (ground (arith, spent)))
            (λ _.
              Leads-of_Keeps (λ d h. h.0)
                (update-Keeps failed any_row max_attempts o id received (λ e. cc e))))

  settle-Leads :
      (endpoint_id : String) (n : ℕ) (r : DispatchResult)
      → Leads
          (Tried n)
          (Exhausted max_attempts)
          (Exhausted max_attempts)
          (settle o max_attempts id endpoint_id (n + 1) r)
  unfolding settle
  settle-Leads endpoint_id n r =
      let kept = λ (d : Db) (h : Tried n d). h.0 in
      Leads-bind _ _ (Leads-of_kept kept (Keeps-call o)) λ _.
        Leads-bind _ _ (Leads-of_kept kept (Keeps-now_v7 o)) λ attempt_id.
          Leads-bind _ _ (Leads-of_kept kept (Keeps-now_secs o)) λ now.
            Leads-bind _ _ (Leads-statement kept o _ _ _ (record_attempt r attempt_id n now))
              (λ _. move_on-Leads endpoint_id (n + 1) r now)

  settles :
      (endpoint_id : String) (n : ℕ) (r : DispatchResult) (w : World)
      → n ≡ count_where (attempt_of id) w.db.attempts
      → Exhausted max_attempts w.db
      → Exhausted max_attempts (settle o max_attempts id endpoint_id (n + 1) r w).1.db
  settles endpoint_id n r w counted h =
      Keeps-of_end (settle-Leads endpoint_id n r) w
        (h, omega (arith, counted, counted_rows w.db.attempts))

-- No event is given up early: from a sound database in which every FAILED event has at least `max_attempts` recorded
-- attempts, any sequence of operations leads to such a database, whatever calls fail and whatever is replied.
-- `transition_status`, which no handler calls, is not used to move an event to FAILED.
pub perform_all-Exhausted :
    (o : Outside) (c : Crates) (json_object : List (String × String) → String) (parsers : Parsers)
    (cfg : AppConfig) (ops : List Operation) (w : World)
    → All (IsAllowed (λ to. to ≢ failed)) ops
    → Exhausted (from_app_config cfg).max_attempts w.db
    → Exhausted
        (from_app_config cfg).max_attempts
        (perform_all o c json_object parsers cfg ops w).db
perform_all-Exhausted o c json_object parsers cfg ops w allowed h =
    let most = (from_app_config cfg).max_attempts in
    perform_all_keeps_allowed o cfg
      (HasEvidence-operations failed any_row most o cfg (λ e. cc e) (λ e. cc e)
        (λ id endpoint_id n k url sent v counted held.
          settles o most id endpoint_id n (judge (o.post k url sent)) v counted held))
      c json_object parsers ops w allowed h
