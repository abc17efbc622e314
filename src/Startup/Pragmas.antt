-- ===== src/Startup/Pragmas.antt =====
-- src/db/mod.rs: the settings of every connection of the pool, and the texts of the errors of the start.
use aether_relay.Prelude.{ℕ, String, ◌+++◌, Bool, true, false}
use aether_relay.Prelude.Text.{decimal}
use aether_relay.Config.{DatabaseConfig}
use aether_relay.Startup.{PoolInitError, pool, migration, io}

-- `cache_size` by its sign and its absolute value.
pub record PragmaCustomizer : Type 0 where
  pub busy_timeout_ms : ℕ
  pub mmap_size : ℕ
  pub cache_size_negative : Bool
  pub cache_size : ℕ

-- What `create_pool` makes of the configuration.
abbrev pub customizer_of : DatabaseConfig → PragmaCustomizer
customizer_of database = record {
  busy_timeout_ms = database.busy_timeout_ms;
  mmap_size = database.mmap_size;
  cache_size_negative = database.cache_size_negative;
  cache_size = database.cache_size;
}

abbrev signed : Bool → ℕ → String
signed true n = "-" +++ decimal n
signed false n = decimal n

-- The batch that a new connection runs.
unfoldable pub on_acquire : PragmaCustomizer → String
on_acquire c =
    "PRAGMA journal_mode = WAL;\n             PRAGMA synchronous = NORMAL;\n             PRAGMA busy_timeout = "
    +++ decimal c.busy_timeout_ms
    +++ ";\n             PRAGMA mmap_size = "
    +++ decimal c.mmap_size
    +++ ";\n             PRAGMA cache_size = "
    +++ signed c.cache_size_negative c.cache_size
    +++ ";\n             PRAGMA foreign_keys = ON;"

unfoldable pub fmt : PoolInitError → String
fmt (pool e) = "failed to build connection pool: " +++ e
fmt (migration e) = "failed to run schema migrations: " +++ e
fmt (io e) = "failed to restrict database file permissions: " +++ e
