-- ===== src/Runner/Retrying.antt =====
-- When src/worker/runner.rs tries again what the downstream refused.
use aether_relay.Prelude.{
  ◌=?◌, Bool-cases, ℕ, ◌+◌, ◌≤◌, ◌<◌, String, ◌≡◌, refl, sym, ap, ◌∙◌, inl, inr, Bool, false, not,
  ◌&&◌, some, List, [], ◌∷◌, arith, eq_iff,
}
use aether_relay.Models.{EventStatus, received, processing, as_str, EventRow}
use aether_relay.Store.Tables.{update_where, count_where, first_where}
use aether_relay.Store.Schema.{event_is, attempt_of, with_status, update_status}
use aether_relay.Store.Runs.{Runs}
use aether_relay.Runner.{
  DispatchLoopConfig, settled, comes_first, event_received, Loop, claim_next_event, after_dispatch,
  run_dispatch_once, loop_round,
}
use aether_relay.Store.{Outside, dispatch_attempts, World, ◌>>=◌}
use aether_relay.Runner.Claims.{waiting, marked, some_claim}
use aether_relay.Dispatcher.Fetching.{attempt_count_of}
use aether_relay.Store.Tables.Laws.{first_where_counted}
use aether_relay.Dispatcher.{DispatchResult, dispatch_single_event}
use aether_relay.Dispatcher.Outcomes.{dispatch_single_event_lem}
use aether_relay.Dispatcher.Settling.{next_status}
use aether_relay.Store.Rows.{Db}
use aether_relay.Error.{ok}

module _ {ℓ} {A : Type ℓ} (p q : A → Bool) where
  count_where-parts :
      (xs : List A)
      → count_where p xs ≡ count_where (λ x. q x && p x) xs + count_where (λ x. p x && not (q x)) xs
  unfolding count_where
  count_where-parts [] = refl
  count_where-parts (x ∷ xs) = ground (arith, count_where-parts xs)

same_row : (s t : String) (x : EventRow) → x.status ≡ s → with_status s (with_status t x) ≡ x
same_row s t x h = ap (λ u. record x { status = u }) (sym h)

-- A status that is written over and written back.
update_back :
    (p : String) (s t : String) (xs : List EventRow)
    → count_where (λ x. event_is p x && not (x.status =? s)) xs ≡ 0
    → update_where (event_is p) (with_status s) (update_where (event_is p) (with_status t) xs) ≡ xs
unfolding count_where update_where
update_back p s t [] h = refl
update_back p s t (x ∷ xs) h = elim (Bool-cases (event_is p x)) [
  | inl hit ↦ elim (Bool-cases (x.status =? s)) [
    | inl same ↦ rw hit (
        cc
          (same_row s t x ((eq_iff x.status s).0 same), update_back p s t xs (rw (hit, same) at h)))
    | inr other ↦ absurd (cc (rw (hit, other) at h))
  ]
  | inr miss ↦
      rw miss
        (rw miss (ap (λ (rest : List EventRow). x ∷ rest) (update_back p s t xs (rw miss at h))))
]

received_again :
    (max_attempts n : ℕ) (success : Bool)
    → success ≡ false
    → n < max_attempts
    → next_status max_attempts n success ≡ received
unfolding next_status
received_again max_attempts n success refused left = ground arith

module _ (o : Outside) (cfg : DispatchLoopConfig) (random : ℕ → ℕ → ℕ → ℕ) (l : Loop)
    (id endpoint_id : String) (v w' : World) (r : DispatchResult)
    (claims : Runs (claim_next_event o) l.world (some (id, endpoint_id)) v)
    (dispatches : Runs
      (dispatch_single_event o cfg.circuit_failure_threshold cfg.circuit_recovery cfg.max_attempts
        id)
      v
      r
      w')
    (tried : r.deferred ≡ false) where
  abbrev counted_world : World
  counted_world = record w' { metrics = dispatch_attempts endpoint_id "success" ∷ w'.metrics }

  pass_settled : run_dispatch_once o cfg l.world ≡ (ok settled, counted_world)
  unfolding run_dispatch_once ◌>>=◌ after_dispatch
  pass_settled = rw (claims, dispatches, tried) refl

  round_settled :
      loop_round o random cfg l ≡ record l { world = counted_world; prev_sleep = cfg.backoff_base }
  unfolding loop_round
  round_settled = rw pass_settled refl

  back_in_line :
      r.success ≡ false
      → count_where (attempt_of id) l.world.db.attempts + 1 < cfg.max_attempts
      → count_where (event_is id) l.world.db.events ≤ 1
      → w'.db.events ≡ l.world.db.events
  unfolding update_status next_status
  back_in_line refused left unique =
      let (e, waits, is_id, marked) = some_claim o l.world v id endpoint_id claims in
      elim (dispatch_single_event_lem o cfg.circuit_failure_threshold cfg.circuit_recovery
        cfg.max_attempts id v w' r dispatches) [
          | inl deferred' ↦ absurd (cc (tried, deferred'.result))
          | inr delivered' ↦
              let made = attempt_count_of id v.db delivered'.delivery delivered'.due in
              let here =
                first_where_counted comes_first event_received (event_is id) l.world.db.events e
                  waits ((eq_iff e.id id).1 is_id) in
              let all_received : count_where (λ x. event_is id x && not (event_received x))
                    l.world.db.events
                  ≡ 0 =
                omega (
                  arith,
                  count_where-parts (event_is id) event_received l.world.db.events,
                  here,
                  unique,
                ) in
              let is_received =
                received_again cfg.max_attempts (delivered'.delivery.attempt_count + 1) r.success
                  refused
                  (omega (
                    arith,
                    made,
                    left,
                    ap (λ (d : Db). count_where (attempt_of id) d.attempts) marked,
                  )) in
              delivered'.settled.events
              ∙ ap
                  (λ (st : EventStatus).
                    update_where (event_is id) (with_status (as_str st)) v.db.events)
                  is_received
              ∙ ap (λ (d : Db). update_where (event_is id) (with_status (as_str received)) d.events)
                  marked
              ∙ update_back id (as_str received) (as_str processing) l.world.db.events all_received
        ]

  -- A delivery that the downstream refuses is tried again at once: while attempts are left, the round makes no
  -- pause, and the event that the next claim finds is the same as before, with nothing let past it. The event
  -- is the only one with its identifier.
  pub loop_round_retries :
      r.success ≡ false
      → count_where (attempt_of id) l.world.db.attempts + 1 < cfg.max_attempts
      → count_where (event_is id) l.world.db.events ≤ 1
      → ((loop_round o random cfg l).slept ≡ l.slept)
        × (waiting (loop_round o random cfg l).world ≡ waiting l.world)
  loop_round_retries refused left unique = (
    ap (λ (l' : Loop). l'.slept) round_settled,
    ap (λ (l' : Loop). waiting l'.world) round_settled
        ∙ ap (first_where comes_first event_received) (back_in_line refused left unique),
  )
