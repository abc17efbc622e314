-- ===== src/Breaker/Invariant.antt =====
-- What holds of a breaker of src/worker/circuit_breaker.rs between two calls.
use aether_relay.Prelude.{
  ℕ, ◌+◌, ◌%◌, ◌<◌, ◌≡◌, refl, ◌∙◌, ◌≢◌, ◌⊎◌, true, none, List, [], ◌∷◌, arith,
}
use aether_relay.Breaker.{
  closed, opened, half_open, CircuitBreaker, new, can_attempt, record_success, u32_mod,
  record_failure,
}

pub record IsValid (b : CircuitBreaker) : Type 0 where
  pub count_fits : b.failure_count < u32_mod
  pub threshold_fits : b.failure_threshold < u32_mod
  pub closed_below :
      b.state ≡ closed → (b.failure_count ≡ 0) ⊎ (b.failure_count < b.failure_threshold)
  pub closed_undated : b.state ≡ closed → b.open_until ≡ none
  pub opened_dated : b.state ≡ opened → b.open_until ≢ none
  pub probe_half_open : b.probe_in_flight ≡ true → b.state ≡ half_open

-- The calls that the dispatcher makes of a breaker.
pub data Call : Type 0 where
  attempt failure : ℕ → Call
  success : Call

unfoldable pub apply : CircuitBreaker → Call → CircuitBreaker
apply b (attempt now) = (can_attempt b now).1
apply b (failure now) = record_failure b now
apply b success = record_success b

unfoldable pub run : CircuitBreaker → List Call → CircuitBreaker
unfolding apply
run b [] = b
run b (c ∷ cs) = run (apply b c) cs

new-IsValid : (n r : ℕ) → n < u32_mod → IsValid (new n r)
unfolding new
new-IsValid n r h = ground arith

pub apply-IsValid : (b : CircuitBreaker) (c : Call) → IsValid b → IsValid (apply b c)
unfolding apply can_attempt record_failure record_success
apply-IsValid b (attempt now) v = ground arith
apply-IsValid b (failure now) v = ground arith
apply-IsValid b success v = ground arith

run-IsValid_from : (b : CircuitBreaker) (cs : List Call) → IsValid b → IsValid (run b cs)
unfolding run
run-IsValid_from b [] v = v
run-IsValid_from b (c ∷ cs) v = run-IsValid_from (apply b c) cs (apply-IsValid b c v)

-- The failures since the last success, after `n` at the start.
unfoldable pub streak : ℕ → List Call → ℕ
streak n [] = n
streak n (attempt _ ∷ cs) = streak n cs
streak n (failure _ ∷ cs) = streak (n + 1) cs
streak n (success ∷ cs) = streak 0 cs

attempt_counts :
    (b : CircuitBreaker) (now : ℕ) → (can_attempt b now).1.failure_count ≡ b.failure_count
unfolding can_attempt
attempt_counts b now = ground arith

failure_counts :
    (b : CircuitBreaker) (now : ℕ)
    → (record_failure b now).failure_count ≡ (b.failure_count + 1) % u32_mod
unfolding record_failure
failure_counts b now = ground arith

success_counts : (b : CircuitBreaker) → (record_success b).failure_count ≡ 0
unfolding record_success
success_counts b = refl

run-eq-streak :
    (b : CircuitBreaker) (n : ℕ) (cs : List Call)
    → b.failure_count ≡ n % u32_mod
    → (run b cs).failure_count ≡ streak n cs % u32_mod
unfolding run streak apply
run-eq-streak b n [] h = h
run-eq-streak b n (attempt now ∷ cs) h =
    run-eq-streak (can_attempt b now).1 n cs (attempt_counts b now ∙ h)
run-eq-streak b n (failure now ∷ cs) h =
    run-eq-streak (record_failure b now) (n + 1) cs (omega (arith, failure_counts b now, h))
run-eq-streak b n (success ∷ cs) h = run-eq-streak (record_success b) 0 cs (success_counts b)

-- After any sequence of calls on a new breaker, its counter is the number of failures since the last success, as a
-- `u32` counts them, modulo 2 ^ 32. A closed breaker has counted none or is below its threshold, and has no
-- deadline; an open one has a deadline; and a probe is in flight only while the breaker is half-open.
pub run-IsValid :
    (n r : ℕ) (cs : List Call)
    → n < u32_mod
    → IsValid (run (new n r) cs) × ((run (new n r) cs).failure_count ≡ streak 0 cs % u32_mod)
unfolding new
run-IsValid n r cs h =
    (run-IsValid_from (new n r) cs (new-IsValid n r h), run-eq-streak (new n r) 0 cs refl)
