-- ===== src/Startup.antt =====
-- src/db/mod.rs and src/db/migrations.rs: the database is opened, migrated and restricted to its owner
-- before anything else runs. Every step can fail and leaves what the steps before it did.
pub mod Triples
pub mod Migrated
pub mod Restricted
pub mod Pragmas
use aether_relay.Prelude.{
  leb, ◌=?◌, if◌then◌else◌, any, ℕ, ◌+◌, String, ◌+++◌, Bool, true, false, Option, none, some, List,
  [], ◌∷◌,
}

pub data PoolInitError : Type 0 where
  pool migration io : String → PoolInitError

-- The schema objects that exist, `PRAGMA user_version`, the files with their modes, and the number of
-- calls made.
pub record Disk : Type 0 where
  pub objects : List String
  pub user_version : ℕ
  pub files : List (String × ℕ)
  pub calls : ℕ

-- `none` is success.
abbrev pub Step : Type 0
Step = Disk → Option PoolInitError × Disk

abbrev pub go_on : Option PoolInitError → Step → Step
go_on none next d = next d
go_on (some e) next d = (some e, d)

infixl 5 ◌&>◌
-- The `?` after a step.
abbrev pub ◌&>◌ : Step → Step → Step
(first &> next) d = let (r, d') = first d in go_on r next d'

abbrev pub done : Step
done d = (none, d)

abbrev pub schema_version : ℕ
schema_version = 1

-- The tables and indices of SCHEMA_SQL.
abbrev pub schema_objects : List String
schema_objects =
    "endpoints" ∷ "incoming_events" ∷ "idx_events_status" ∷ "idx_events_endpoint"
    ∷ "delivery_attempts" ∷ "dead_letter_queue" ∷ []

-- CREATE … IF NOT EXISTS
abbrev pub create_object : String → Disk → Disk
create_object name d = record d {
  objects = if any (λ o. o =? name) d.objects then d.objects else name ∷ d.objects;
}

-- `set_permissions` of every file with the path.
unfoldable pub set_mode : String → ℕ → List (String × ℕ) → List (String × ℕ)
set_mode path mode [] = []
set_mode path mode ((p, m) ∷ files) = (p, if p =? path then mode else m) ∷ set_mode path mode files

unfoldable pub exists_file : String → List (String × ℕ) → Bool
exists_file path [] = false
exists_file path ((p, m) ∷ files) =
    let rest = exists_file path files in if p =? path then true else rest

abbrev pub attempted : Option String → (String → PoolInitError) → (Disk → Disk) → Step
attempted none wrap write d = (none, record (write d) { calls = d.calls + 1 })
attempted (some e) wrap write d = (some (wrap e), record d { calls = d.calls + 1 })

-- `fault n` is the error of the n-th call, if it fails.
module _ (fault : ℕ → Option String) where
  unfoldable pub attempt : (String → PoolInitError) → (Disk → Disk) → Step
  attempt wrap write d = attempted (fault d.calls) wrap write d

  -- The statements of a batch, one after the other.
  unfoldable pub create_objects : List String → Step
  create_objects [] = done
  create_objects (name ∷ names) = attempt migration (create_object name) &> create_objects names

  abbrev pub apply_schema : Step
  apply_schema =
      create_objects schema_objects
      &> attempt migration (λ d. record d { user_version = schema_version })

  unfoldable pub run_migrations : Step
  run_migrations = attempt migration (λ d. d) &> λ d.
      if leb schema_version d.user_version then done d else apply_schema d

  abbrev pub restrict : String → Step
  restrict path d =
      if exists_file path d.files
      then attempt io (λ d. record d { files = set_mode path 384 d.files }) d
      else done d

  unfoldable pub restrict_db_permissions : String → Step
  restrict_db_permissions db_path d =
      if db_path =? ":memory:"
      then done d
      else (restrict db_path &> restrict (db_path +++ "-wal") &> restrict (db_path +++ "-shm")) d

  -- `open_files` is what building the pool does to the disk: SQLite's files come into being.
  unfoldable pub create_pool : (Disk → Disk) → String → Step
  create_pool open_files db_path =
      attempt pool open_files
      &> attempt pool (λ d. d)
      &> run_migrations
      &> restrict_db_permissions db_path
