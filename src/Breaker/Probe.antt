-- ===== src/Breaker/Probe.antt =====
-- One probe at a time reaches a downstream that may not have recovered.
use aether_relay.Prelude.{
  if◌then◌else◌, ℕ, suc, ◌≤◌, ◌≡◌, refl, ◌≢◌, ◌⊎◌, true, false, List, [], ◌∷◌, arith,
}
use aether_relay.Breaker.{closed, half_open, CircuitBreaker, can_attempt}

-- How many of the attempts at the given times are let through, with no outcome recorded between.
unfoldable pub admitted : CircuitBreaker → List ℕ → ℕ
admitted b [] = 0
admitted b (now ∷ times) =
    let (ok, b') = can_attempt b now in if ok then suc (admitted b' times) else admitted b' times

blocked_after_probe :
    (b : CircuitBreaker) (now : ℕ)
    → b.state ≡ half_open
    → b.probe_in_flight ≡ true
    → can_attempt b now ≡ (false, b)
unfolding can_attempt
blocked_after_probe b now s p = ground arith

admitted_after_probe :
    (b : CircuitBreaker) (times : List ℕ)
    → b.state ≡ half_open
    → b.probe_in_flight ≡ true
    → admitted b times ≡ 0
unfolding admitted
admitted_after_probe b [] s p = refl
admitted_after_probe b (now ∷ times) s p =
    rw (blocked_after_probe b now s p) (admitted_after_probe b times s p)

-- One attempt on a breaker that is not closed: a refusal leaves it not closed, a permission leaves
-- it with its probe in flight.
attempt_not_closed :
    (b : CircuitBreaker) (now : ℕ)
    → b.state ≢ closed
    → ((can_attempt b now).0 ≡ false) × ((can_attempt b now).1.state ≢ closed)
      ⊎ ((can_attempt b now).0 ≡ true)
        × ((can_attempt b now).1.state ≡ half_open)
        × ((can_attempt b now).1.probe_in_flight ≡ true)
unfolding can_attempt
attempt_not_closed b now h = ground arith

-- A breaker that is open or half-open lets at most one of any number of attempts through until an
-- outcome is recorded, however much time passes.
pub admitted-le-one :
    (b : CircuitBreaker) (times : List ℕ) → b.state ≢ closed → admitted b times ≤ 1
unfolding admitted
admitted-le-one b [] h = omega arith
admitted-le-one b (now ∷ times) h = ground (
  arith,
  attempt_not_closed b now h,
  admitted-le-one (can_attempt b now).1 times,
  admitted_after_probe (can_attempt b now).1 times,
)
