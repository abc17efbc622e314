-- ===== src/Runner/Pacing.antt =====
-- How long the loop of src/worker/runner.rs pauses.
use aether_relay.Prelude.{length, All, ℕ, zero, suc, ◌≤◌, ◌<◌, ◌≡◌, refl, ◌⊎◌, inl, inr}
use aether_relay.Error.{Result, err, ok}
use aether_relay.Backoff.{u64_mod, from_millis}
use aether_relay.Config.{AppConfig}
use aether_relay.Store.{Outside, World}
use aether_relay.Runner.{
  from_app_config, DispatchOutcome, idle, settled, deferred, Loop, run_dispatch_once, back_off,
  react, loop_round, run_dispatch_loop,
}
use aether_relay.Backoff.Laws.{IsUniformRange, decorrelated_jitter_bounds}

-- A pause is the poll interval of an idle queue, or a backoff between its two bounds.
abbrev pub IsPaced : AppConfig → ℕ → Type 0
IsPaced app d =
    (d ≡ from_millis app.worker.poll_interval_ms)
    ⊎ (from_millis app.worker.backoff_base_ms ≤ d) × (d ≤ from_millis app.worker.backoff_cap_ms)

module _ (o : Outside) (random : ℕ → ℕ → ℕ → ℕ) (app : AppConfig)
    (uniform : (n : ℕ) → IsUniformRange (random n))
    (ordered : app.worker.backoff_base_ms ≤ app.worker.backoff_cap_ms)
    (fits : app.worker.backoff_cap_ms < u64_mod) where
  back_off-IsPaced :
      (l : Loop) (w : World)
      → All (IsPaced app) l.slept
      → All (IsPaced app) (back_off o random (from_app_config app) l w).slept
  unfolding from_app_config
  back_off-IsPaced l w h =
      let (low, high, _) =
        decorrelated_jitter_bounds (random (length l.slept)) app.worker.backoff_base_ms
          app.worker.backoff_cap_ms l.prev_sleep (uniform (length l.slept)) ordered fits in
      (inr (low, high), h)

  react-IsPaced :
      (l : Loop) (r : Result DispatchOutcome) (w : World)
      → All (IsPaced app) l.slept
      → All (IsPaced app) (react o random (from_app_config app) l r w).slept
  unfolding from_app_config
  react-IsPaced l (ok settled) w h = h
  react-IsPaced l (ok idle) w h = (inl refl, h)
  react-IsPaced l (ok deferred) w h = back_off-IsPaced l w h
  react-IsPaced l (err e) w h = back_off-IsPaced l w h

  -- With a backoff base of at most the cap, and whatever each draw from its range gives, every pause of the loop, however many rounds it has run
  -- and whatever came of them, is the poll interval or lies between the base and the cap.
  pub run_dispatch_loop-IsPaced :
      (rounds : ℕ) (w : World)
      → All (IsPaced app) (run_dispatch_loop o random (from_app_config app) rounds w).slept
  unfolding run_dispatch_loop loop_round
  run_dispatch_loop-IsPaced zero w = tt
  run_dispatch_loop-IsPaced (suc rounds) w =
      let l = run_dispatch_loop o random (from_app_config app) rounds w in
      let (outcome, w') = run_dispatch_once o (from_app_config app) l.world in
      react-IsPaced l outcome w' (run_dispatch_loop-IsPaced rounds w)
