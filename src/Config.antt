-- ===== src/Config.antt =====
-- src/config.rs and src/state.rs: the typed configuration. Reading the file and the environment is
-- the `config` crate's, so a configuration is a parameter.
use aether_relay.Prelude.{ℕ, String, Bool, List}

pub record ServerConfig : Type 0 where
  pub host : String
  pub port : ℕ
  pub body_limit_bytes : ℕ

-- `cache_size` is an `i64`, negative for a size in KiB: its sign and its absolute value.
pub record DatabaseConfig : Type 0 where
  pub path : String
  pub busy_timeout_ms : ℕ
  pub mmap_size : ℕ
  pub cache_size_negative : Bool
  pub cache_size : ℕ
  pub pool_size : ℕ

pub record AuthConfig : Type 0 where
  pub api_keys : List String

pub record WorkerConfig : Type 0 where
  pub poll_interval_ms : ℕ
  pub max_attempts : ℕ
  pub backoff_base_ms : ℕ
  pub backoff_cap_ms : ℕ
  pub circuit_failure_threshold : ℕ
  pub circuit_recovery_timeout_secs : ℕ

pub record LoggingConfig : Type 0 where
  pub level : String
  pub format : String

pub record MetricsConfig : Type 0 where
  pub enabled : Bool

pub record AppConfig : Type 0 where
  pub server : ServerConfig
  pub database : DatabaseConfig
  pub auth : AuthConfig
  pub worker : WorkerConfig
  pub logging : LoggingConfig
  pub metrics : MetricsConfig
