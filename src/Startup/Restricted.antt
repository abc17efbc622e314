-- ===== src/Startup/Restricted.antt =====
-- After a start the files of the database are their owner's alone.
use aether_relay.Prelude.{
  ◌=?◌, if◌then◌else◌, Bool-cases, All, All-map, ℕ, String, ◌+++◌, ◌≡◌, refl, ◌≢◌, inl, inr, Bool,
  true, false, Option, List, [], ◌∷◌,
}
use aether_relay.Startup.{
  pool, io, Disk, ◌&>◌, done, set_mode, exists_file, attempt, restrict, restrict_db_permissions,
  create_pool,
}
use aether_relay.Startup.Triples.{After, Triple, Triple-seq, Triple-attempt}
use aether_relay.Startup.Migrated.{IsMigratable, IsMigrated, run_migrations_lem}

-- Every file with the path can be read and written by its owner only: 0o600.
abbrev pub OwnerOnly : String → List (String × ℕ) → Type 0
OwnerOnly path files = All (λ file. (file.0 =? path) ≡ true → file.1 ≡ 384) files

set_mode-OwnerOnly :
    (path : String) (files : List (String × ℕ)) → OwnerOnly path (set_mode path 384 files)
unfolding set_mode
set_mode-OwnerOnly path [] = tt
set_mode-OwnerOnly path ((p, m) ∷ files) = (λ h. rw h refl, set_mode-OwnerOnly path files)

set_mode_keeps :
    (path q : String) (files : List (String × ℕ))
    → OwnerOnly q files
    → OwnerOnly q (set_mode path 384 files)
unfolding set_mode
set_mode_keeps path q [] h = tt
set_mode_keeps path q ((p, m) ∷ files) (here, later) = (
  λ own. elim (Bool-cases (p =? path)) [
    | inl same ↦ rw same refl
    | inr other ↦ rw other (here own)
  ],
  set_mode_keeps path q files later,
)

true-ne-false : true ≢ false
true-ne-false h = cc

missing-OwnerOnly :
    (path : String) (files : List (String × ℕ))
    → exists_file path files ≡ false
    → OwnerOnly path files
unfolding exists_file
missing-OwnerOnly path [] h = tt
missing-OwnerOnly path ((p, m) ∷ files) h = elim (Bool-cases (p =? path)) [
  | inl same ↦ absurd (true-ne-false (rw same at h))
  | inr other ↦ (
    λ own. absurd (true-ne-false (cc (own, other))),
    missing-OwnerOnly path files (rw other at h),
  )
]

-- The schema is complete, and the files with the paths are restricted.
pub record IsReady (paths : List String) (d : Disk) : Type 0 where
  pub migrated : IsMigrated d
  pub owned : All (λ path. OwnerOnly path d.files) paths

-- The files of a database: its index, its log and the main file.
abbrev pub files_of : String → List String
files_of db_path = (db_path +++ "-shm") ∷ (db_path +++ "-wal") ∷ db_path ∷ []

module _ (fault : ℕ → Option String) where
  restricts :
      (path : String) (paths : List String)
      → Triple
          (attempt fault io (λ d. record d { files = set_mode path 384 d.files }))
          (IsReady paths)
          (IsReady (path ∷ paths))
          IsMigratable
  restricts path paths =
      Triple-attempt fault io _
        (λ d r. record {
          migrated = record { version = r.migrated.version; complete = r.migrated.complete };
          owned = (
            set_mode-OwnerOnly path d.files,
            All-map (λ q. OwnerOnly q d.files) (λ q. OwnerOnly q (set_mode path 384 d.files)) paths
                (λ q h. set_mode_keeps path q d.files h) r.owned,
          );
        })
        (λ d r. record { recorded = λ _. r.migrated.complete })

  restrict_chosen :
      (there : Bool) (path : String) (paths : List String) (d : Disk)
      → exists_file path d.files ≡ there
      → IsReady paths d
      → After (IsReady (path ∷ paths)) IsMigratable (
          if there
          then attempt fault io (λ e. record e { files = set_mode path 384 e.files }) d
          else done d)
  restrict_chosen true path paths d h r = (restricts path paths).run d r
  restrict_chosen false path paths d h r = record {
    migrated = r.migrated;
    owned = (missing-OwnerOnly path d.files h, r.owned);
  }

  restrict_one :
      (path : String) (paths : List String)
      → Triple (restrict fault path) (IsReady paths) (IsReady (path ∷ paths)) IsMigratable
  restrict_one path paths = record {
    run = λ d r. restrict_chosen (exists_file path d.files) path paths d refl r;
  }

  restrict_all :
      (db_path : String)
      → Triple
          (restrict fault db_path
            &> restrict fault (db_path +++ "-wal")
            &> restrict fault (db_path +++ "-shm"))
          (IsReady [])
          (IsReady (files_of db_path))
          IsMigratable
  restrict_all db_path =
      Triple-seq {M = IsReady ((db_path +++ "-wal") ∷ db_path ∷ [])} _ _
        (Triple-seq {M = IsReady (db_path ∷ [])} _ _ (restrict_one db_path [])
          (restrict_one (db_path +++ "-wal") (db_path ∷ [])))
        (restrict_one (db_path +++ "-shm") ((db_path +++ "-wal") ∷ db_path ∷ []))

  restricted :
      (memory : Bool) (db_path : String) (d : Disk)
      → memory ≡ false
      → IsReady [] d
      → After (IsReady (files_of db_path)) IsMigratable (
          if memory
          then done d
          else (restrict fault db_path
                &> restrict fault (db_path +++ "-wal")
                &> restrict fault (db_path +++ "-shm"))
              d)
  restricted true db_path d h r = absurd (true-ne-false h)
  restricted false db_path d h r = (restrict_all db_path).run d r

  creates :
      (open_files : Disk → Disk) (db_path : String)
      → ((d : Disk) → IsMigratable d → IsMigratable (open_files d))
      → (db_path =? ":memory:") ≡ false
      → Triple
          (create_pool fault open_files db_path)
          IsMigratable
          (IsReady (files_of db_path))
          IsMigratable
  unfolding create_pool restrict_db_permissions
  creates open_files db_path harmless on_disk =
      Triple-seq {M = IsMigrated} _ _
        (Triple-seq {M = IsMigratable} _ _
          (Triple-seq {M = IsMigratable} _ _
            (Triple-attempt fault pool open_files
              (λ d m. record { recorded = (harmless d m).recorded })
              (λ d m. record { recorded = m.recorded }))
            (Triple-attempt fault pool (λ d. d) (λ d m. record { recorded = m.recorded })
              (λ d m. record { recorded = m.recorded })))
          (run_migrations_lem fault))
        (record {
          run = λ d m.
              restricted (db_path =? ":memory:") db_path d on_disk
                (record { migrated = m; owned = tt });
        })

  -- Where opening the files does not break the schema, and from a disk that records the version only with the
  -- whole schema: a pool that is created for a file has the whole schema in its recorded version, and the
  -- database file, its log and its index, as far as they exist, are their owner's alone. A pool that is not
  -- created leaves a disk on which the start can be tried again.
  pub create_pool_lem :
      (open_files : Disk → Disk) (db_path : String) (d : Disk)
      → ((e : Disk) → IsMigratable e → IsMigratable (open_files e))
      → (db_path =? ":memory:") ≡ false
      → IsMigratable d
      → After (IsReady (files_of db_path)) IsMigratable (create_pool fault open_files db_path d)
  create_pool_lem open_files db_path d harmless on_disk m =
      (creates open_files db_path harmless on_disk).run d m
