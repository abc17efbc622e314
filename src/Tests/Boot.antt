-- ===== src/Tests/Boot.antt =====
-- The start of the program on a new disk.
use aether_relay.Prelude.{
  ◌==◌, if◌then◌else◌, ℕ, String, ◌≡◌, refl, inl, inr, true, Option, none, some, [], ◌∷◌, arith,
}
use aether_relay.Prelude.Text.{decimal}
use aether_relay.Main.{logging, spawned, Process, Host, ◌>>=◌, bring_up, start_up}
use aether_relay.Tests.Handlers.{cfg}
use aether_relay.Startup.{
  migration, Disk, set_mode, exists_file, attempt, create_objects, run_migrations,
  restrict_db_permissions, create_pool,
}
use aether_relay.Startup.Triples.{After}
use aether_relay.Startup.Migrated.{IsMigratable}
use aether_relay.Startup.Restricted.{IsReady, files_of, create_pool_lem}
use aether_relay.Runner.{from_app_config}
use aether_relay.Main.Listening.{IsListening, start_up_lem}
use aether_relay.Startup.Pragmas.{customizer_of, on_acquire}

abbrev new_disk : Disk
new_disk = record { objects = []; user_version = 0; files = []; calls = 0 }

-- SQLite makes the file and its log, readable by all.
abbrev open_files : Disk → Disk
open_files d = record d { files = ("relay.db", 420) ∷ ("relay.db-wal", 420) ∷ d.files }

abbrev no_fault : ℕ → Option String
no_fault n = none

-- The sixth call, the third CREATE, fails.
abbrev one_fault : ℕ → Option String
one_fault n = if n == 5 then some "disk full" else none

boot : Unit {0}
unfolding create_pool attempt run_migrations create_objects restrict_db_permissions set_mode
    exists_file
boot = tt

boot_test :
    ((create_pool no_fault open_files "relay.db" new_disk).0 ≡ none)
    × ((create_pool no_fault open_files "relay.db" new_disk).1.files
        ≡ ("relay.db", 384) ∷ ("relay.db-wal", 384) ∷ [])
    × ((create_pool one_fault open_files "relay.db" new_disk).0 ≡ some (migration "disk full"))
unfolding boot
boot_test = (refl, refl, refl)

create_pool_lem_example :
    After
      (IsReady (files_of "relay.db"))
      IsMigratable
      (create_pool one_fault open_files "relay.db" new_disk)
create_pool_lem_example =
    create_pool_lem one_fault open_files "relay.db" new_disk
      (λ e m. record { recorded = m.recorded }) refl
      (record { recorded = λ high. absurd (omega (arith, high)) })

abbrev here : Host
here = record {
  load = inr cfg;
  env_filter = none;
  fault = no_fault;
  open_files = open_files;
  client = none;
  render = λ metrics. "";
  parse_addr = λ s. inr s;
  bind = λ addr. none;
  serve = none;
}

abbrev new_process : Process
new_process = record { disk = new_disk; exporter = none; effects = [] }

abbrev started : Process
started = (start_up here new_process).1

starts : start_up here new_process ≡ (inr (cfg, "0.0.0.0:8080"), started)
unfolding boot start_up bring_up ◌>>=◌ decimal
starts = refl

start_up_lem_example :
    IsListening here new_process started cfg "0.0.0.0:8080"
    × IsReady (files_of "relay.db") started.disk
start_up_lem_example =
    start_up_lem here new_process started cfg "0.0.0.0:8080" starts
      (λ e m. record { recorded = m.recorded }) refl
      (record { recorded = λ high. absurd (omega (arith, high)) })

-- A port that is taken: the worker runs already when the start fails.
bind_fails :
    ((start_up (record here { bind = λ addr. some "address in use" }) new_process).0
      ≡ inl "address in use")
    × ((start_up (record here { bind = λ addr. some "address in use" }) new_process).1.effects
        ≡ spawned (from_app_config cfg) ∷ logging true "info" ∷ [])
unfolding boot start_up bring_up ◌>>=◌ decimal
bind_fails = (refl, refl)

pragmas :
    on_acquire (customizer_of cfg.database)
    ≡ "PRAGMA journal_mode = WAL;\n             PRAGMA synchronous = NORMAL;\n             PRAGMA busy_timeout = 5000;\n             PRAGMA mmap_size = 0;\n             PRAGMA cache_size = -64000;\n             PRAGMA foreign_keys = ON;"
unfolding on_acquire decimal
pragmas = refl
