-- ===== src/Backoff.antt =====
-- src/worker/backoff.rs: the decorrelated jitter. A `Duration` is a number of nanoseconds. The random
-- number comes from outside: `random lo hi` stands for `rng.random_range(lo..=hi)`.
pub mod Laws
use aether_relay.Prelude.{ℕ, ◌-◌, ◌*◌, ◌/◌, ◌%◌, ◌^◌, min, max}

abbrev pub u64_mod : ℕ
u64_mod = 2 ^ 64

abbrev pub from_millis : ℕ → ℕ
from_millis ms = ms * 1_000_000

abbrev pub from_secs : ℕ → ℕ
from_secs s = s * 1_000_000_000

-- `d.as_millis() as u64`
abbrev pub as_millis : ℕ → ℕ
as_millis d = d / 1_000_000 % u64_mod

-- `prev_ms.saturating_mul(3).max(base_ms)`
unfoldable pub jitter_high : ℕ → ℕ → ℕ
jitter_high base_ms prev_ms = max (min (prev_ms * 3) (u64_mod - 1)) base_ms

unfoldable pub decorrelated_jitter : (ℕ → ℕ → ℕ) → ℕ → ℕ → ℕ → ℕ
unfolding jitter_high
decorrelated_jitter random base cap prev_sleep =
    let base_ms = as_millis base in
    let high = jitter_high base_ms (as_millis prev_sleep) in
    from_millis (min (random base_ms high) (as_millis cap))
