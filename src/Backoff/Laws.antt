-- ===== src/Backoff/Laws.antt =====
-- The bounds of the delay of src/worker/backoff.rs.
use aether_relay.Prelude.{ℕ, ◌*◌, ◌≤◌, ◌<◌, max, ◌≡◌, arith}
use aether_relay.Backoff.{u64_mod, from_millis, as_millis, jitter_high, decorrelated_jitter}

-- What `random_range` documents: a value of the range, if the range is not empty.
abbrev pub IsUniformRange : (ℕ → ℕ → ℕ) → Type 0
IsUniformRange random = (lo hi : ℕ) → lo ≤ hi → (lo ≤ random lo hi) × (random lo hi ≤ hi)

-- The range that the delay is drawn from is never empty, so the draw does not panic, and its upper
-- end fits in a `u64` wherever the base does.
pub jitter_high_bounds :
    (base_ms prev_ms : ℕ)
    → base_ms < u64_mod
    → (base_ms ≤ jitter_high base_ms prev_ms) × (jitter_high base_ms prev_ms < u64_mod)
unfolding jitter_high
jitter_high_bounds base_ms prev_ms h = (omega arith, omega arith)

-- For a base and a cap of whole milliseconds that fit in a `u64`, with the base at most the cap, the
-- delay is at least the base, at most the cap and, before the cap applies, at most three times the
-- last delay or the base; whatever the random numbers and the last delay.
pub decorrelated_jitter_bounds :
    (random : ℕ → ℕ → ℕ) (base_ms cap_ms prev : ℕ)
    → IsUniformRange random
    → base_ms ≤ cap_ms
    → cap_ms < u64_mod
    → (from_millis base_ms
        ≤ decorrelated_jitter random (from_millis base_ms) (from_millis cap_ms) prev)
      × (decorrelated_jitter random (from_millis base_ms) (from_millis cap_ms) prev
          ≤ from_millis cap_ms)
      × (decorrelated_jitter random (from_millis base_ms) (from_millis cap_ms) prev
          ≤ max (3 * prev) (from_millis base_ms))
unfolding decorrelated_jitter
decorrelated_jitter_bounds random base_ms cap_ms prev uniform le fits =
    let base_back : as_millis (from_millis base_ms) ≡ base_ms = omega arith in
    let cap_back : as_millis (from_millis cap_ms) ≡ cap_ms = omega arith in
    rw (base_back, cap_back)
      (let (above, below) = uniform base_ms (jitter_high base_ms (as_millis prev)) (omega arith) in
        (omega arith, omega arith, omega arith))
