-- ===== src/Tests/Breakers.antt =====
-- The circuit breaker and the backoff at concrete times.
use aether_relay.Prelude.{
  ltb, leb, length, ℕ, ◌+◌, ◌*◌, ◌%◌, ◌≤◌, max, ◌≡◌, refl, true, false, none, some, List, [], ◌∷◌,
  arith,
}
use aether_relay.Breaker.{
  closed, opened, half_open, CircuitBreaker, new, can_attempt, u32_mod, record_failure,
}
use aether_relay.Breaker.Invariant.{
  IsValid, Call, attempt, failure, success, run, streak, run-IsValid,
}
use aether_relay.Breaker.Opening.{
  is_closed, fail_all, opens_at_threshold, can_attempt_after_opening,
}
use aether_relay.Breaker.Probe.{admitted, admitted-le-one}
use aether_relay.Backoff.{from_millis, decorrelated_jitter}
use aether_relay.Backoff.Laws.{decorrelated_jitter_bounds}

abbrev calls : List Call
calls = failure 1 ∷ failure 2 ∷ attempt 3 ∷ attempt 40 ∷ failure 41 ∷ attempt 80 ∷ success ∷ []

run-IsValid_example :
    IsValid (run (new 2 30) calls)
    × ((run (new 2 30) calls).failure_count ≡ streak 0 calls % u32_mod)
run-IsValid_example = run-IsValid 2 30 calls (omega arith)

opens_at_threshold_example :
    is_closed (fail_all (new 2 30) (5 ∷ 6 ∷ [])).state ≡ ltb (length {A = ℕ} (5 ∷ 6 ∷ [])) 2
opens_at_threshold_example = opens_at_threshold 2 30 (5 ∷ 6 ∷ []) (omega arith) (omega arith)

abbrev one_strike : CircuitBreaker
one_strike = record {
  state = closed;
  failure_count = 0;
  failure_threshold = 1;
  recovery_timeout = 30;
  open_until = none;
  probe_in_flight = false;
}

one_strike_opens : (record_failure one_strike 10).state ≡ opened
unfolding record_failure
one_strike_opens = refl

can_attempt_after_opening_example :
    ((can_attempt (record_failure one_strike 10) 39).0 ≡ leb (10 + 30) 39)
    × (10 + 30 ≤ 39
        → ((can_attempt (record_failure one_strike 10) 39).1.state ≡ half_open)
          × ((can_attempt (record_failure one_strike 10) 39).1.probe_in_flight ≡ true))
can_attempt_after_opening_example =
    can_attempt_after_opening one_strike 10 39 (λ e. cc) one_strike_opens

abbrev probing : CircuitBreaker
probing = record one_strike { state = half_open; failure_count = 4; probe_in_flight = true }

abbrev tripped : CircuitBreaker
tripped = record one_strike { state = opened; failure_count = 1; open_until = some 40 }

admitted-le-one_example : admitted tripped (39 ∷ 41 ∷ 42 ∷ []) ≤ 1
admitted-le-one_example = admitted-le-one tripped (39 ∷ 41 ∷ 42 ∷ []) (λ e. cc)

admitted_once : admitted tripped (39 ∷ 41 ∷ 42 ∷ []) ≡ 1
unfolding admitted can_attempt
admitted_once = refl

abbrev lowest : ℕ → ℕ → ℕ
lowest lo hi = lo

decorrelated_jitter_bounds_example :
    (from_millis 100
      ≤ decorrelated_jitter lowest (from_millis 100) (from_millis 5000) (from_millis 200))
    × (decorrelated_jitter lowest (from_millis 100) (from_millis 5000) (from_millis 200)
        ≤ from_millis 5000)
    × (decorrelated_jitter lowest (from_millis 100) (from_millis 5000) (from_millis 200)
        ≤ max (3 * from_millis 200) (from_millis 100))
decorrelated_jitter_bounds_example =
    decorrelated_jitter_bounds lowest 100 5000 (from_millis 200) (λ lo hi h. (omega arith, h))
      (omega arith) (omega arith)
