-- ===== src/Api/Health.antt =====
-- src/api/health.rs: the health check, which asks for no key and touches no database.
use aether_relay.Prelude.{ℕ, String}
use aether_relay.Store.{Outside, Act, pure, now_secs, ◌>>=◌}

-- `CARGO_PKG_VERSION`
abbrev pub version : String
version = "0.2.0"

pub record HealthStatus : Type 0 where
  pub status : String
  pub version : String
  pub timestamp : ℕ

-- `chrono_or_unix_now` is the wall clock in seconds.
unfoldable pub health_check : Outside → Act HealthStatus
health_check o = do
  now ← now_secs o
  pure (record { status = "ok"; version = version; timestamp = now })
