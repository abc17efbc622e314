-- ===== src/Breaker.antt =====
-- src/worker/circuit_breaker.rs: the per-endpoint circuit breaker. An `Instant` and a `Duration` are
-- numbers of nanoseconds, and each method that reads the clock takes the reading as `now`.
pub mod Invariant
pub mod Opening
pub mod Probe
use aether_relay.Prelude.{
  ℕ, ◌+◌, ◌%◌, ◌^◌, Bool, true, false, ◌||◌, Option, none, some, leb, if◌then◌else◌,
}

pub data CircuitState : Type 0 where
  closed opened half_open : CircuitState

pub record CircuitBreaker : Type 0 where
  pub state : CircuitState
  pub failure_count : ℕ
  pub failure_threshold : ℕ
  pub recovery_timeout : ℕ
  pub open_until : Option ℕ
  pub probe_in_flight : Bool

unfoldable pub new : ℕ → ℕ → CircuitBreaker
new failure_threshold recovery_timeout = record {
  state = closed;
  failure_count = 0;
  failure_threshold = failure_threshold;
  recovery_timeout = recovery_timeout;
  open_until = none;
  probe_in_flight = false;
}

-- The `if let … && let … && …` chain of `state`.
abbrev recovered : CircuitState → Option ℕ → ℕ → Bool
recovered opened (some until) now = leb until now
recovered opened none now = false
recovered _ until now = false

unfoldable pub state : CircuitBreaker → ℕ → CircuitState × CircuitBreaker
state b now =
    if recovered b.state b.open_until now
    then (half_open, record b { state = half_open })
    else (b.state, b)

abbrev admit : CircuitState → CircuitBreaker → Bool × CircuitBreaker
admit closed b = (true, b)
admit half_open b =
    if b.probe_in_flight then (false, b) else (true, record b { probe_in_flight = true })
admit opened b = (false, b)

unfoldable pub can_attempt : CircuitBreaker → ℕ → Bool × CircuitBreaker
unfolding state
can_attempt b now = let (s, b') = state b now in admit s b'

unfoldable pub record_success : CircuitBreaker → CircuitBreaker
record_success b = record b {
  failure_count = 0;
  state = closed;
  open_until = none;
  probe_in_flight = false;
}

abbrev is_half_open : CircuitState → Bool
is_half_open half_open = true
is_half_open _ = false

-- A `u32` counter: the release build wraps.
abbrev pub u32_mod : ℕ
u32_mod = 2 ^ 32

unfoldable pub record_failure : CircuitBreaker → ℕ → CircuitBreaker
record_failure b now =
    let count = (b.failure_count + 1) % u32_mod in
    if leb b.failure_threshold count || is_half_open b.state
    then record b {
      failure_count = count;
      state = opened;
      open_until = some (now + b.recovery_timeout);
      probe_in_flight = false;
    }
    else record b { failure_count = count; probe_in_flight = false }
