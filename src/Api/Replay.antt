-- ===== src/Api/Replay.antt =====
-- What a replay of src/api/dlq.rs does to the event of a dead letter.
use aether_relay.Prelude.{
  ◌=?◌, Option-cases, ◌+◌, String, ◌+++◌, ◌≡◌, refl, ap, ◌⊎◌, inl, inr, Bool, not, ◌&&◌, Option,
  none, some, arith,
}
use aether_relay.Error.{AppError, database, not_found, Result, err, ok}
use aether_relay.Config.{AppConfig}
use aether_relay.Models.{received, as_str, EventRow, DeadLetterRow}
use aether_relay.Store.Going.{Runs-call_bind, Runs-query_bind, Runs-execute_bind, Runs-lift_bind}
use aether_relay.Store.{Outside, World, store}
use aether_relay.Store.Runs.{tick, Runs, bind_inv, call_bind, query_bind, execute_bind}
use aether_relay.Store.Rows.{Db}
use aether_relay.Store.Tables.{select_where, count_where}
use aether_relay.Store.Schema.{
  event_is, attempt_of, dead_letter_is, with_status, update_status, delete_attempts,
  delete_dead_letter,
}
use aether_relay.Error.Try.{ok_or}
use aether_relay.Api.Steps.{lift_bind, last_step}
use aether_relay.Api.Dlq.{Replayed, replayed_answer, replay, replay_dlq}
use aether_relay.Crypto.Headers.{HeaderMap}
use aether_relay.Store.Tables.Laws.{count_where-delete_self, count_where-update_none}

-- An event with the identifier that is not waiting.
abbrev pub not_waiting : String → EventRow → Bool
not_waiting event_id e = event_is event_id e && not (e.status =? as_str received)

required_row :
    (e : AppError) (found : Option DeadLetterRow) {row : DeadLetterRow}
    → ok_or e found ≡ ok row
    → found ≡ some row
required_row e none h = cc
required_row e (some x) h = cc

module _ (o : Outside) (cfg : AppConfig) where
  replay_inv :
      (dlq_id : String) (w w' : World) (event_id : String)
      → Runs (replay o cfg dlq_id) w event_id w'
      → (row : DeadLetterRow) × (select_where (dead_letter_is dlq_id) w.db.dead_letters ≡ some row)
        × (event_id ≡ row.event_id)
        × (w'.db
            ≡ delete_dead_letter dlq_id (
                delete_attempts row.event_id
                  (update_status (event_is row.event_id) (as_str received) w.db)))
  unfolding replay
  replay_inv dlq_id w w' event_id h =
      let (row, found, h1) =
        lift_bind (ok_or _ (select_where (dead_letter_is dlq_id) w.db.dead_letters)) _
          (tick (tick w)) w' (query_bind o _ _ (tick w) w' (call_bind o _ w w' h)) in
      let (value, after) =
        last_step row.event_id event_id _ w'
          (execute_bind o _ _ _ w' (execute_bind o _ _ _ w' (execute_bind o _ _ _ w' h1))) in
      (row, required_row _ _ found, value, after)

  waiting_after :
      (event_id : String) (d : Db)
      → count_where
          (not_waiting event_id)
          (update_status (event_is event_id) (as_str received) d).events
        ≡ 0
  unfolding update_status as_str
  waiting_after event_id d =
      count_where-update_none (event_is event_id) (not_waiting event_id) (with_status "RECEIVED")
        d.events (λ e h. ground arith) (λ e h. ground arith)

  -- A replay that answers has found the dead letter and names its event. Afterwards the dead letter is
  -- gone, every event with that identifier is RECEIVED, and none of its attempts is counted, so that it has its whole
  -- retry budget again.
  pub replay_dlq_lem :
      (dlq_id : String) (headers : HeaderMap) (w w' : World) (r : Replayed)
      → Runs (replay_dlq o cfg dlq_id headers) w r w'
      → (row : DeadLetterRow) × (select_where (dead_letter_is dlq_id) w.db.dead_letters ≡ some row)
        × (r ≡ replayed_answer row.event_id)
        × (count_where (dead_letter_is dlq_id) w'.db.dead_letters ≡ 0)
        × (count_where (not_waiting row.event_id) w'.db.events ≡ 0)
        × (count_where (attempt_of row.event_id) w'.db.attempts ≡ 0)
  unfolding replay_dlq delete_dead_letter delete_attempts update_status
  replay_dlq_lem dlq_id headers w w' r h =
      let (_, _, h1) = lift_bind _ _ w w' h in
      let (event_id, v, run, rest) = bind_inv (replay o cfg dlq_id) _ w w' h1 in
      let (row, found, value, after) = replay_inv dlq_id w v event_id run in
      let (answer, same) = last_step (replayed_answer event_id) r v w' rest in
      (
        row,
        found,
        cc (answer, value),
        rw (same, after) (count_where-delete_self (dead_letter_is dlq_id) w.db.dead_letters),
        rw (same, after) (waiting_after row.event_id w.db),
        rw (same, after) (count_where-delete_self (attempt_of row.event_id) w.db.attempts),
      )

  module _ (dlq_id : String) (w : World) (row : DeadLetterRow) where
    -- The tables after each of the three statements.
    abbrev pub updated_db : Db
    updated_db = update_status (event_is row.event_id) (as_str received) w.db

    abbrev pub cleared_db : Db
    cleared_db = delete_attempts row.event_id updated_db

    -- Where a replay with an error has stopped, by the call that failed: before the UPDATE, behind it, or
    -- behind the DELETE of the attempts.
    abbrev pub StopsAt : String → Db → Type 0
    StopsAt e d =
        (d ≡ w.db)
          × ((o.fault w.calls ≡ some e)
              ⊎ (o.fault (w.calls + 1) ≡ some e)
              ⊎ (o.fault (w.calls + 1 + 1) ≡ some e))
        ⊎ (d ≡ updated_db) × (o.fault (w.calls + 1 + 1 + 1) ≡ some e)
        ⊎ (d ≡ cleared_db) × (o.fault (w.calls + 1 + 1 + 1 + 1) ≡ some e)

    found_row :
        select_where (dead_letter_is dlq_id) w.db.dead_letters ≡ some row
        → ok_or
            (not_found ("DLQ record " +++ dlq_id +++ " not found"))
            (select_where (dead_letter_is dlq_id) w.db.dead_letters)
          ≡ ok row
    found_row found = ap (ok_or (not_found ("DLQ record " +++ dlq_id +++ " not found"))) found

    done :
        select_where (dead_letter_is dlq_id) w.db.dead_letters ≡ some row
        → o.fault w.calls ≡ none
        → o.fault (w.calls + 1) ≡ none
        → o.fault (w.calls + 1 + 1) ≡ none
        → o.fault (w.calls + 1 + 1 + 1) ≡ none
        → o.fault (w.calls + 1 + 1 + 1 + 1) ≡ none
        → ((replay o cfg dlq_id w).0 ≡ ok row.event_id)
          × ((replay o cfg dlq_id w).1.db ≡ delete_dead_letter dlq_id cleared_db)
    unfolding replay store
    done found f0 f1 f2 f3 f4 =
        let run : Runs (replay o cfg dlq_id) w row.event_id (record w {
          db = delete_dead_letter dlq_id cleared_db;
          calls = w.calls + 1 + 1 + 1 + 1 + 1;
        }) =
          Runs-call_bind o _ w _ f0 (
            Runs-query_bind o _ _ (tick w) _ f1 (
              Runs-lift_bind _ _ (tick (tick w)) _ (found_row found) (
                Runs-execute_bind o _ _ (tick (tick w)) _ f2
                  (Runs-execute_bind o _ _ _ _ f3 (Runs-execute_bind o _ _ _ _ f4 refl))))) in
        (
          ap (λ (p : Result String × World). p.0) run,
          ap (λ (p : Result String × World). p.1.db) run,
        )

    -- Every run of a replay of a dead letter that exists. It returns, and all three statements are done: the event is
    -- RECEIVED, its attempts are deleted and so is the dead letter. Or one of its five database calls
    -- fails, the answer is the error of that call, and the statements before it stay: a replay is
    -- not rolled back. So a failure of the DELETE of the attempts leaves the event RECEIVED with its old attempts.
    pub replay_stages :
        select_where (dead_letter_is dlq_id) w.db.dead_letters ≡ some row
        → ((replay o cfg dlq_id w).0 ≡ ok row.event_id)
            × ((replay o cfg dlq_id w).1.db ≡ delete_dead_letter dlq_id cleared_db)
          ⊎ (e : String) × ((replay o cfg dlq_id w).0 ≡ err (database e))
            × StopsAt e (replay o cfg dlq_id w).1.db
    unfolding replay store
    replay_stages found = elim (Option-cases (o.fault w.calls)) [
      | inr (e, f) ↦ inr (e, ground arith, inl (ground arith, inl f))
      | inl f0 ↦ elim (Option-cases (o.fault (w.calls + 1))) [
        | inr (e, f) ↦ inr (e, ground arith, inl (ground arith, inr (inl f)))
        | inl f1 ↦ elim (Option-cases (o.fault (w.calls + 1 + 1))) [
          | inr (e, f) ↦ inr (e, ground arith, inl (ground arith, inr (inr f)))
          | inl f2 ↦ elim (Option-cases (o.fault (w.calls + 1 + 1 + 1))) [
            | inr (e, f) ↦ inr (e, ground arith, inr (inl (ground arith, f)))
            | inl f3 ↦ elim (Option-cases (o.fault (w.calls + 1 + 1 + 1 + 1))) [
              | inr (e, f) ↦ inr (e, ground arith, inr (inr (ground arith, f)))
              | inl f4 ↦ inl (done found f0 f1 f2 f3 f4)
            ]
          ]
        ]
      ]
    ]
