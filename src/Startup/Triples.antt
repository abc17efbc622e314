-- ===== src/Startup/Triples.antt =====
-- Conditions before and after a step, after its success and after its failure.
use aether_relay.Prelude.{ℕ, ◌+◌, String, Option, none, some}
use aether_relay.Startup.{PoolInitError, Disk, Step, go_on, ◌&>◌, attempted, attempt}

abbrev pub After : (Q R : Disk → Type 0) → Option PoolInitError × Disk → Type 0
After Q R (none, d) = Q d
After Q R (some e, d) = R d

pub record Triple (s : Step) (P Q R : Disk → Type 0) : Type 0 where
  pub run : (d : Disk) → P d → After Q R (s d)

then_after :
    (M Q R : Disk → Type 0) (r : Option PoolInitError) (d : Disk) (next : Step)
    → Triple next M Q R
    → After M R (r, d)
    → After Q R (go_on r next d)
then_after M Q R none d next t h = t.run d h
then_after M Q R (some e) d next t h = h

module _ {P M Q R : Disk → Type 0} where
  pub Triple-seq :
      (first next : Step) → Triple first P M R → Triple next M Q R → Triple (first &> next) P Q R
  Triple-seq first next s t = record {
    run = λ d h. then_after M Q R (first d).0 (first d).1 next t (s.run d h);
  }

attempted_after :
    (Q R : Disk → Type 0) (f : Option String) (wrap : String → PoolInitError) (write : Disk → Disk)
    (d : Disk)
    → Q (record (write d) { calls = d.calls + 1 })
    → R (record d { calls = d.calls + 1 })
    → After Q R (attempted f wrap write d)
attempted_after Q R none wrap write d good bad = good
attempted_after Q R (some e) wrap write d good bad = bad

module _ {P Q R : Disk → Type 0} (fault : ℕ → Option String) where
  pub Triple-attempt :
      (wrap : String → PoolInitError) (write : Disk → Disk)
      → ((d : Disk) → P d → Q (record (write d) { calls = d.calls + 1 }))
      → ((d : Disk) → P d → R (record d { calls = d.calls + 1 }))
      → Triple (attempt fault wrap write) P Q R
  unfolding attempt
  Triple-attempt wrap write good bad = record {
    run = λ d h. attempted_after Q R (fault d.calls) wrap write d (good d h) (bad d h);
  }
