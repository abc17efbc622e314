-- ===== src/Runner/Budget/Draining.antt =====
-- The loop of src/worker/runner.rs comes to an end of its work: its deliveries are as many at most as its
-- events have attempts left, and it drains the queue.
use aether_relay.Prelude.{
  if◌then◌else◌, ℕ, zero, suc, ◌+◌, ◌≤◌, ◌<◌, ◌≡◌, refl, ap, ◌⊎◌, inl, inr, Bool, true, false,
  arith,
}
use aether_relay.Error.{Result, err, ok}
use aether_relay.Runner.Budget.{budget}
use aether_relay.Runner.{
  DispatchLoopConfig, DispatchOutcome, idle, settled, deferred, event_received, run_dispatch_once,
  run_dispatch_loop,
}
use aether_relay.Runner.Budget.Passes.{settled_pass-lt, pass-le, idle_pass, settled_pass_found}
use aether_relay.Store.Tables.{count_where}
use aether_relay.Store.{Outside, World}
use aether_relay.System.Sound.{IsSound}
use aether_relay.Store.Runs.{Runs-of_ok}
use aether_relay.System.Writes.{Keeps-run_dispatch_once}
use aether_relay.System.Integrity.{IsSound-writes}
use aether_relay.Runner.Rounds.{loop_world, rounds_keep}

abbrev is_settled : Result DispatchOutcome → Bool
is_settled (ok settled) = true
is_settled _ = false

module _ (o : Outside) (random : ℕ → ℕ → ℕ → ℕ) (cfg : DispatchLoopConfig) where
  -- The world before the round with this number, and what the pass of that round returns.
  abbrev pub world_at : ℕ → World → World
  world_at k w = (run_dispatch_loop o random cfg k w).world

  abbrev pub outcome_at : ℕ → World → Result DispatchOutcome
  outcome_at k w = (run_dispatch_once o cfg (world_at k w)).0

  -- How many of the first rounds end in a settled delivery.
  pub settled_rounds : ℕ → World → ℕ
  settled_rounds zero w = 0
  settled_rounds (suc k) w = (if is_settled (outcome_at k w) then 1 else 0) + settled_rounds k w

  world_at-IsSound : (k : ℕ) (w : World) → IsSound w.db → IsSound (world_at k w).db
  world_at-IsSound k w sound =
      rounds_keep o cfg random IsSound (Keeps-run_dispatch_once o IsSound-writes cfg).from k w sound

  pass_below :
      (r : Result DispatchOutcome) (w w' : World)
      → run_dispatch_once o cfg w ≡ (r, w')
      → IsSound w.db
      → budget cfg.max_attempts w'.db ≤ budget cfg.max_attempts w.db
  pass_below r w w' run sound = omega (
    arith,
    pass-le o cfg w sound,
    ap (λ (p : Result DispatchOutcome × World). budget cfg.max_attempts p.1.db) run,
  )

  pass_spends :
      (r : Result DispatchOutcome) (w w' : World)
      → run_dispatch_once o cfg w ≡ (r, w')
      → IsSound w.db
      → (if is_settled r then 1 else 0) + budget cfg.max_attempts w'.db
        ≤ budget cfg.max_attempts w.db
  pass_spends (ok settled) w w' run sound = omega (arith, settled_pass-lt o cfg w w' sound run)
  pass_spends (ok idle) w w' run sound = omega (arith, pass_below _ w w' run sound)
  pass_spends (ok deferred) w w' run sound = omega (arith, pass_below _ w w' run sound)
  pass_spends (err e) w w' run sound = omega (arith, pass_below _ w w' run sound)

  -- In any number of rounds, the rounds that settle a delivery and the attempts that are left afterwards
  -- come to at most the attempts that the open events had left at the start, one at least for each event.
  -- So while nothing is added to the queue, only so many deliveries are settled, whatever fails. The keys and
  -- references of the tables are sound at the start.
  pub settled_rounds-le :
      (rounds : ℕ) (w : World)
      → IsSound w.db
      → settled_rounds rounds w + budget cfg.max_attempts (world_at rounds w).db
        ≤ budget cfg.max_attempts w.db
  unfolding settled_rounds run_dispatch_loop
  settled_rounds-le zero w sound = omega arith
  settled_rounds-le (suc k) w sound = rw (loop_world o cfg random k w) (
      omega (
        arith,
        settled_rounds-le k w sound,
        pass_spends (outcome_at k w) (world_at k w) (run_dispatch_once o cfg (world_at k w)).1 refl
            (world_at-IsSound k w sound),
      ))

  -- No round before this one was put off by an open circuit or failed.
  abbrev pub GoesWell : ℕ → World → Type 0
  GoesWell rounds w =
      (k : ℕ) → k < rounds → (outcome_at k w ≡ ok settled) ⊎ (outcome_at k w ≡ ok idle)

  abbrev pub IsDrained : World → Type 0
  IsDrained w = count_where event_received w.db.events ≡ 0

  idle-IsDrained :
      (w : World)
      → (run_dispatch_once o cfg w).0 ≡ ok idle
      → IsDrained (run_dispatch_once o cfg w).1
  idle-IsDrained w rests =
      let (empty, same) =
        idle_pass o cfg w (run_dispatch_once o cfg w).1
          (Runs-of_ok (run_dispatch_once o cfg) w rests) in
      rw same empty

  stay-IsDrained :
      (w : World)
      → (run_dispatch_once o cfg w).0 ≡ ok settled ⊎ (run_dispatch_once o cfg w).0 ≡ ok idle
      → IsDrained w
      → IsDrained (run_dispatch_once o cfg w).1
  stay-IsDrained w (inl done) empty = absurd (
      settled_pass_found o cfg w (run_dispatch_once o cfg w).1
        (Runs-of_ok (run_dispatch_once o cfg) w done) empty)
  stay-IsDrained w (inr rests) empty = idle-IsDrained w rests

  step_drains :
      (settled_before k : ℕ) (w : World)
      → (run_dispatch_once o cfg w).0 ≡ ok settled ⊎ (run_dispatch_once o cfg w).0 ≡ ok idle
      → settled_before ≡ k ⊎ IsDrained w
      → ((if is_settled (run_dispatch_once o cfg w).0 then 1 else 0) + settled_before ≡ suc k)
        ⊎ IsDrained (run_dispatch_once o cfg w).1
  step_drains settled_before k w (inl done) (inl all) = inl (rw done (omega (arith, all)))
  step_drains settled_before k w (inr rests) (inl all) = inr (idle-IsDrained w rests)
  step_drains settled_before k w goes (inr empty) = inr (stay-IsDrained w goes empty)

  rounds_drain :
      (rounds : ℕ) (w : World)
      → GoesWell rounds w
      → (settled_rounds rounds w ≡ rounds) ⊎ IsDrained (world_at rounds w)
  unfolding settled_rounds run_dispatch_loop
  rounds_drain zero w well = inl refl
  rounds_drain (suc k) w well = rw (loop_world o cfg random k w) (
      step_drains (settled_rounds k w) k (world_at k w) (well k (omega arith))
        (rounds_drain k w (λ j below. well j (omega arith))))

  -- If no round is put off or fails, and there are more rounds than attempts left at the start, the loop has
  -- drained the queue: no event is RECEIVED any more. The tables are sound at the start.
  pub run_dispatch_loop_drains :
      (rounds : ℕ) (w : World)
      → IsSound w.db
      → GoesWell rounds w
      → budget cfg.max_attempts w.db < rounds
      → IsDrained (world_at rounds w)
  run_dispatch_loop_drains rounds w sound well enough = elim (rounds_drain rounds w well) [
    | inl all ↦ absurd (omega (arith, settled_rounds-le rounds w sound, all, enough))
    | inr empty ↦ empty
  ]
