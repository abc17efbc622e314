-- ===== src/Dispatcher/Settling.antt =====
-- How `dispatch_single_event` of src/worker/dispatcher.rs settles an event.
use aether_relay.Prelude.{
  leb, if◌then◌else◌, Bool-cases, ℕ, ◌+◌, String, ◌≡◌, refl, inl, inr, Bool, not, ◌&&◌, List,
}
use aether_relay.Models.{EventStatus, received, delivered, failed, as_str, DeadLetterRow}
use aether_relay.Store.{Outside, World, ◌>>=◌, call, statement, execute, now_secs, now_v7}
use aether_relay.Store.Tables.{update_where, delete_where, insert}
use aether_relay.Store.Schema.{
  event_is, with_status, update_status, insert_attempt_breaks, insert_attempt,
  replace_dead_letter_breaks, replaced_by, replace_dead_letter,
}
use aether_relay.Dispatcher.{DispatchResult, attempt_row, dead_letter_row, move_on, settle}
use aether_relay.Store.Runs.{Runs, bind_inv, call_inv, statement_inv, execute_inv}

-- What becomes of an event after its attempt number `n`, by the retry budget.
unfoldable pub next_status : ℕ → ℕ → Bool → EventStatus
next_status max_attempts n success =
    if success then delivered else if leb max_attempts n then failed else received

-- The dead letters after attempt number `n`: one for the event, in place of an older one, if it is
-- parked.
unfoldable pub next_dead_letters :
    ℕ → ℕ → DispatchResult → DeadLetterRow → List DeadLetterRow → List DeadLetterRow
next_dead_letters max_attempts n r row rows =
    if not r.success && leb max_attempts n
    then insert row (delete_where (replaced_by row) rows)
    else rows

module _ (o : Outside) (max_attempts : ℕ) (event_id endpoint_id : String) (n : ℕ)
    (r : DispatchResult) (now : ℕ) (w w' : World) where
  abbrev Moved : Type 0
  Moved =
      (w'.db.events
        ≡ update_where (event_is event_id)
            (with_status (as_str (next_status max_attempts n r.success))) w.db.events)
      × (w'.db.dead_letters
          ≡ next_dead_letters max_attempts n r
              (dead_letter_row (o.uuid w.uuids) event_id endpoint_id r now) w.db.dead_letters)
      × (w'.db.attempts ≡ w.db.attempts)
      × (w'.db.endpoints ≡ w.db.endpoints)
      × (w'.sent ≡ w.sent)
      × (w'.breakers ≡ w.breakers)

  move_on_lem : Runs (move_on o max_attempts event_id endpoint_id n r now) w tt w' → Moved
  unfolding ◌>>=◌ next_status next_dead_letters now_v7 update_status replace_dead_letter
  move_on_lem h = elim (Bool-cases r.success) [
    | inl won ↦
        let e =
          execute_inv o (update_status (event_is event_id) (as_str delivered)) w (rw won at h) in
        rw (e, won) (refl, refl, refl, refl, refl, refl)
    | inr lost ↦ elim (Bool-cases (leb max_attempts n)) [
      | inl spent ↦
          let (_, v, marked, rest) =
            bind_inv (execute o (update_status (event_is event_id) (as_str failed))) _ w w'
              (rw (lost, spent) at h) in
          let e = execute_inv o (update_status (event_is event_id) (as_str failed)) w marked in
          let row = dead_letter_row (o.uuid v.uuids) event_id endpoint_id r now in
          let (_, _, e') =
            statement_inv o (replace_dead_letter_breaks row) (λ _. tt) (replace_dead_letter row)
              (record v { uuids = v.uuids + 1 }) rest in
          rw (e', e, lost, spent) (refl, refl, refl, refl, refl, refl)
      | inr left ↦
          let e =
            execute_inv o (update_status (event_is event_id) (as_str received)) w
              (rw (lost, left) at h) in
          rw (e, lost, left) (refl, refl, refl, refl, refl, refl)
    ]
  ]

module _ (o : Outside) (max_attempts : ℕ) (event_id endpoint_id : String) (n : ℕ)
    (r : DispatchResult) (w w' : World) where
  -- What a settled delivery has written: the event's status, its dead letter, and one attempt.
  pub record IsSettled : Type 0 where
    pub events :
        w'.db.events
        ≡ update_where
            (event_is event_id)
            (with_status (as_str (next_status max_attempts n r.success)))
            w.db.events
    pub dead_letters :
        w'.db.dead_letters
        ≡ next_dead_letters max_attempts n r
            (dead_letter_row (o.uuid (w.uuids + 1)) event_id endpoint_id r (o.time w.times))
            w.db.dead_letters
    pub attempts :
        w'.db.attempts
        ≡ insert (attempt_row (o.uuid w.uuids) event_id n r (o.time w.times)) w.db.attempts
    pub endpoints : w'.db.endpoints ≡ w.db.endpoints

  pub settle-IsSettled :
      Runs (settle o max_attempts event_id endpoint_id n r) w tt w'
      → IsSettled × (w'.sent ≡ w.sent) × (w'.breakers ≡ w.breakers)
  unfolding ◌>>=◌ settle now_v7 now_secs insert_attempt
  settle-IsSettled h =
      let (_, u, connected, h') = bind_inv (call o) _ w w' h in
      let (_, at_u) = call_inv o w connected in
      let row = attempt_row (o.uuid u.uuids) event_id n r (o.time u.times) in
      let u' = record u { uuids = u.uuids + 1; times = u.times + 1 } in
      let (_, v, recorded, moved) =
        bind_inv (statement o (insert_attempt_breaks row) (λ _. tt) (insert_attempt row)) _ u' w'
          h' in
      let (_, _, at_v) =
        statement_inv o (insert_attempt_breaks row) (λ _. tt) (insert_attempt row) u' recorded in
      let (events, letters, attempts, endpoints, sent, breakers) =
        move_on_lem o max_attempts event_id endpoint_id n r (o.time u.times) v w' moved in
      (
        record {
          events = rw (at_v, at_u) at events;
          dead_letters = rw (at_v, at_u) at letters;
          attempts = rw (at_v, at_u) at attempts;
          endpoints = rw (at_v, at_u) at endpoints;
        },
        rw (at_v, at_u) at sent,
        rw (at_v, at_u) at breakers,
      )
