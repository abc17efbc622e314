-- ===== src/Breaker/Opening.antt =====
-- When a breaker opens and when it lets requests through again.
use aether_relay.Prelude.{
  ltb, leb, ltb→lt, Bool-cases, length, ℕ, ◌+◌, ◌≤◌, ◌<◌, ◌≡◌, refl, ◌∙◌, ◌≢◌, inl, inr, Bool, true,
  false, some, List, [], ◌∷◌, arith,
}
use aether_relay.Breaker.{
  CircuitState, closed, opened, half_open, CircuitBreaker, new, can_attempt, record_success,
  u32_mod, record_failure,
}

abbrev pub is_closed : CircuitState → Bool
is_closed closed = true
is_closed _ = false

-- Failures recorded one after the other, at the given times.
unfoldable pub fail_all : CircuitBreaker → List ℕ → CircuitBreaker
fail_all b [] = b
fail_all b (t ∷ ts) = fail_all (record_failure b t) ts

record_failure_opened :
    (b : CircuitBreaker) (t : ℕ) → b.state ≡ opened → (record_failure b t).state ≡ opened
unfolding record_failure
record_failure_opened b t h = ground arith

fail_all_opened :
    (b : CircuitBreaker) (ts : List ℕ) → b.state ≡ opened → (fail_all b ts).state ≡ opened
unfolding fail_all
fail_all_opened b [] h = h
fail_all_opened b (t ∷ ts) h = fail_all_opened (record_failure b t) ts (record_failure_opened b t h)

record_failure_last :
    (b : CircuitBreaker) (t : ℕ)
    → b.failure_count + 1 < u32_mod
    → b.failure_threshold ≤ b.failure_count + 1
    → (record_failure b t).state ≡ opened
unfolding record_failure
record_failure_last b t h k = ground arith

record_failure_counts :
    (b : CircuitBreaker) (t : ℕ)
    → b.state ≡ closed
    → b.failure_count + 1 < b.failure_threshold
    → b.failure_count + 1 < u32_mod
    → ((record_failure b t).state ≡ closed)
      × ((record_failure b t).failure_count ≡ b.failure_count + 1)
      × ((record_failure b t).failure_threshold ≡ b.failure_threshold)
unfolding record_failure
record_failure_counts b t s below fits = ground arith

fail_all-is_closed :
    (b : CircuitBreaker) (ts : List ℕ)
    → b.state ≡ closed
    → b.failure_count < b.failure_threshold
    → b.failure_count + length ts < u32_mod
    → is_closed (fail_all b ts).state ≡ ltb (b.failure_count + length ts) b.failure_threshold
unfolding fail_all
fail_all-is_closed b [] s below fits = ground arith
fail_all-is_closed b (t ∷ ts) s below fits =
    elim (Bool-cases (ltb (b.failure_count + 1) b.failure_threshold)) [
      | inl more ↦
          let (s', c, n) = record_failure_counts b t s (ltb→lt _ _ more) (omega arith) in
          fail_all-is_closed (record_failure b t) ts s' (omega (arith, ltb→lt _ _ more))
            (omega arith)
          ∙ ground arith
      | inr last ↦ ground (arith, fail_all_opened (record_failure b t) ts, record_failure_last b t)
    ]

-- A new breaker with a threshold of at least 1 stays closed through fewer consecutive failures than
-- its threshold and is not closed from that number on, whenever the failures come.
pub opens_at_threshold :
    (n r : ℕ) (ts : List ℕ)
    → 0 < n
    → length ts < u32_mod
    → is_closed (fail_all (new n r) ts).state ≡ ltb (length ts) n
unfolding new
opens_at_threshold n r ts pos fits =
    fail_all-is_closed (new n r) ts refl pos (omega arith) ∙ ground arith

-- A failure that opens a breaker keeps it shut for exactly the recovery time: an attempt at `now` is
-- let through if and only if `now` has reached the time of the failure plus the recovery time, and
-- the breaker is half-open with the probe in flight from then on.
pub can_attempt_after_opening :
    (b : CircuitBreaker) (t now : ℕ)
    → b.state ≢ opened
    → (record_failure b t).state ≡ opened
    → ((can_attempt (record_failure b t) now).0 ≡ leb (t + b.recovery_timeout) now)
      × (t + b.recovery_timeout ≤ now
          → ((can_attempt (record_failure b t) now).1.state ≡ half_open)
            × ((can_attempt (record_failure b t) now).1.probe_in_flight ≡ true))
unfolding record_failure can_attempt
can_attempt_after_opening b t now was now_open = ground arith

-- The outcome of a probe decides: from a half-open breaker a success closes it with the failures
-- forgotten, so that the next attempt is let through at any time, and a failure opens it again with
-- a new deadline, whatever the failure count.
pub probe_outcome :
    (b : CircuitBreaker) (t now : ℕ)
    → b.state ≡ half_open
    → ((record_success b).failure_count ≡ 0)
      × ((can_attempt (record_success b) now).0 ≡ true)
      × ((record_failure b t).state ≡ opened)
      × ((record_failure b t).open_until ≡ some (t + b.recovery_timeout))
unfolding record_failure record_success can_attempt
probe_outcome b t now h = ground arith
