-- ===== src/Startup/Migrated.antt =====
-- A schema that was recorded is there, wherever the migrations were interrupted before.
use aether_relay.Prelude.{
  leb, ◌=?◌, if◌then◌else◌, leb→le, Bool-cases, any, All, All-map, ℕ, ◌≤◌, ◌<◌, String, ◌≡◌, refl,
  inl, inr, Bool, true, false, ◌||◌, Option, none, some, List, [], ◌∷◌, arith, eq_iff,
}
use aether_relay.Startup.{
  PoolInitError, migration, Disk, Step, schema_version, schema_objects, create_object,
  create_objects, apply_schema, run_migrations,
}
use aether_relay.Startup.Triples.{After, Triple, Triple-seq, Triple-attempt}

-- The object is there.
abbrev pub has : String → Disk → Bool
has name d = any (λ o. o =? name) d.objects

abbrev pub HasAll : List String → Disk → Type 0
HasAll names d = All (λ name. has name d ≡ true) names

-- A disk that records the version has the whole schema.
pub record IsMigratable (d : Disk) : Type 0 where
  pub recorded : schema_version ≤ d.user_version → HasAll schema_objects d

pub record IsMigrated (d : Disk) : Type 0 where
  pub version : schema_version ≤ d.user_version
  pub complete : HasAll schema_objects d

record IsPartial (names : List String) (d : Disk) : Type 0 where
  low : d.user_version < schema_version
  made : HasAll names d

created : (name : String) (d : Disk) → has name (create_object name d) ≡ true
created name d = elim (Bool-cases (has name d)) [
  | inl there ↦ rw (there, there) refl
  | inr missing ↦ rw (missing, (eq_iff name name).1 refl) refl
]

or_right : (a b : Bool) → b ≡ true → (a || b) ≡ true
or_right true b h = refl
or_right false b h = h

kept :
    (name other : String) (d : Disk) → has other d ≡ true → has other (create_object name d) ≡ true
kept name other d h = elim (Bool-cases (has name d)) [
  | inl there ↦ rw there h
  | inr missing ↦ rw missing (or_right (name =? other) (has other d) h)
]

reorder_after :
    (made : List String) (name : String) (names : List String) (r : Option PoolInitError) (d : Disk)
    → After (λ d. IsPartial (name ∷ made) d × HasAll names d) IsMigratable (r, d)
    → After (λ d. IsPartial made d × HasAll (name ∷ names) d) IsMigratable (r, d)
reorder_after made name names none d (p, all) =
    (record { low = p.low; made = p.made.1 }, (p.made.0, all))
reorder_after made name names (some e) d h = h

reorder :
    (made : List String) (name : String) (names : List String) {s : Step}
    → Triple s
        (IsPartial (name ∷ made))
        (λ d. IsPartial (name ∷ made) d × HasAll names d)
        IsMigratable
    → Triple s
        (IsPartial (name ∷ made))
        (λ d. IsPartial made d × HasAll (name ∷ names) d)
        IsMigratable
reorder made name names {s} t = record {
  run = λ d h. reorder_after made name names (s d).0 (s d).1 (t.run d h);
}

module _ (fault : ℕ → Option String) where
  create_objects_makes :
      (made names : List String)
      → Triple
          (create_objects fault names)
          (IsPartial made)
          (λ d. IsPartial made d × HasAll names d)
          IsMigratable
  unfolding create_objects
  create_objects_makes made [] = record { run = λ d h. (h, tt) }
  create_objects_makes made (name ∷ names) =
      Triple-seq {M = IsPartial (name ∷ made)} _ _
        (Triple-attempt fault migration (create_object name)
          (λ d p. record {
            low = p.low;
            made = (
              created name d,
              All-map (λ n. has n d ≡ true) (λ n. has n (create_object name d) ≡ true) made
                  (λ n h. kept name n d h) p.made,
            );
          })
          (λ d p. record { recorded = λ high. absurd (omega (arith, p.low, high)) }))
        (reorder made name names (create_objects_makes (name ∷ made) names))

  apply_schema_makes : Triple (apply_schema fault) (IsPartial []) IsMigrated IsMigratable
  apply_schema_makes =
      Triple-seq {M = λ d. IsPartial [] d × HasAll schema_objects d} _ _
        (create_objects_makes [] schema_objects)
        (Triple-attempt fault migration (λ d. record d { user_version = schema_version })
          (λ d (p, all). record { version = omega arith; complete = all })
          (λ d (p, all). record { recorded = λ high. absurd (omega (arith, p.low, high)) }))

  choose :
      (high : Bool) (d : Disk)
      → leb schema_version d.user_version ≡ high
      → IsMigratable d
      → After IsMigrated IsMigratable (if high then (none, d) else apply_schema fault d)
  choose true d h m =
      let version = leb→le schema_version d.user_version h in
      record { version = version; complete = m.recorded version }
  choose false d h m = apply_schema_makes.run d (record { low = ground arith; made = tt })

  -- Migrations that succeed leave the whole schema and its version. Migrations that fail leave a disk on which
  -- they can be run again, so that no interrupted start hides a missing table.
  pub run_migrations_lem : Triple (run_migrations fault) IsMigratable IsMigrated IsMigratable
  unfolding run_migrations
  run_migrations_lem =
      Triple-seq {M = IsMigratable} _ _
        (Triple-attempt fault migration (λ d. d) (λ d m. record { recorded = m.recorded })
          (λ d m. record { recorded = m.recorded }))
        (record { run = λ d m. choose (leb schema_version d.user_version) d refl m })
