-- ===== src/Store/Triples.antt =====
-- Conditions on the database before an action, after it returns and after it fails.
use aether_relay.Prelude.{
  if◌then◌else◌, Option-cases, String, ◌≡◌, refl, inl, inr, Bool, true, false, Option, none, some,
}
use aether_relay.Error.{Result, err, ok}
use aether_relay.Store.{
  Outside, World, Act, continue, ◌>>=◌, call, settle_statement, statement, execute,
}
use aether_relay.Store.Rows.{Db}
use aether_relay.Store.Keeps.{Keeps}

abbrev pub Ends : {A : Type 0} → (Q R : Db → Type 0) → Result A × World → Type 0
Ends Q R (ok a, w) = Q w.db
Ends Q R (err e, w) = R w.db

-- From `P` the action returns with `Q` or fails with `R`.
pub record Leads {A : Type 0} (P Q R : Db → Type 0) (m : Act A) : Type 0 where
  pub run : (w : World) → P w.db → Ends Q R (m w)

module _ {A : Type 0} (P : Db → Type 0) where
  both : (r : Result A) (w : World) → Ends P P (r, w) → P w.db
  both (ok a) w h = h
  both (err e) w h = h

  either : (r : Result A) (w : World) → P w.db → Ends P P (r, w)
  either (ok a) w h = h
  either (err e) w h = h

module _ {A : Type 0} {P : Db → Type 0} where
  pub Keeps-of_Leads : {m : Act A} → Leads P P P m → Keeps P m
  Keeps-of_Leads {m} t = record { from = λ w h. both P (m w).0 (m w).1 (t.run w h) }

module _ {A B : Type 0} {M Q R : Db → Type 0} where
  continue_after :
      (r : Result A) (next : A → Act B) (w : World)
      → ((a : A) → Leads M Q R (next a))
      → Ends M R (r, w)
      → Ends Q R (continue r next w)
  continue_after (ok a) next w t h = (t a).run w h
  continue_after (err e) next w t h = h

  pub Leads-bind :
      {P : Db → Type 0} (first : Act A) (next : A → Act B)
      → Leads P M R first
      → ((a : A) → Leads M Q R (next a))
      → Leads P Q R (first >>= next)
  unfolding ◌>>=◌
  Leads-bind first next s t = record {
    run = λ w h. continue_after (first w).0 next (first w).1 t (s.run w h);
  }

module _ {P R : Db → Type 0} (fails : (d : Db) → P d → R d) where
  Leads-call : (o : Outside) → Leads P P R (call o)
  unfolding call
  Leads-call o = record {
    run = λ w h. elim (Option-cases (o.fault w.calls)) [
      | inl fine ↦ rw (fine, Ends, call) h
      | inr (e, fault) ↦ rw (fault, Ends, call) (fails w.db h)
    ];
  }

module _ {P R : Db → Type 0} {A : Type 0} (fails : (d : Db) → P d → R d) where
  settle_after :
      (o : Outside) (Q : Db → Type 0) (broken : Option String) (read : Db → A) (write : Db → Db)
      (w : World)
      → (broken ≡ none → P w.db → Q (write w.db))
      → P w.db
      → Ends Q R (settle_statement o broken read write w)
  settle_after o Q none read write w good h = good refl h
  settle_after o Q (some e) read write w good h = fails w.db h

  pub Leads-statement :
      {Q : Db → Type 0} (o : Outside) (breaks : Db → Option String) (read : Db → A)
      (write : Db → Db)
      → ((d : Db) → breaks d ≡ none → P d → Q (write d))
      → Leads P Q R (statement o breaks read write)
  unfolding statement
  Leads-statement {Q} o breaks read write good =
      Leads-bind (call o) (λ _ w. settle_statement o (breaks w.db) read write w)
        (Leads-call fails o)
        (λ _. record { run = λ w h. settle_after o Q (breaks w.db) read write w (good w.db) h })

module _ {P Q R : Db → Type 0} (fails : (d : Db) → P d → R d) where
  pub Leads-execute :
      (o : Outside) (write : Db → Db)
      → ((d : Db) → P d → Q (write d))
      → Leads P Q R (execute o write)
  unfolding execute
  Leads-execute o write good =
      Leads-statement fails o (λ _. none) (λ _. tt) write (λ d _ h. good d h)

module _ {A : Type 0} {P R : Db → Type 0} where
  -- What is kept from a weaker condition on.
  pub Leads-of_end : {m : Act A} → ((w : World) → P w.db → R (m w).1.db) → Leads P R R m
  Leads-of_end {m} ends = record { run = λ w h. either R (m w).0 (m w).1 (ends w h) }

  pub Leads-of_Keeps : {m : Act A} → ((d : Db) → P d → R d) → Keeps R m → Leads P R R m
  Leads-of_Keeps {m} before k = record {
    run = λ w h. either R (m w).0 (m w).1 (k.from w (before w.db h));
  }

module _ {A : Type 0} {P R : Db → Type 0} where
  failing : (r : Result A) (w : World) → ((d : Db) → P d → R d) → P w.db → Ends P R (r, w)
  failing (ok a) w fails h = h
  failing (err e) w fails h = fails w.db h

  -- What is kept, with less of it after a failure.
  pub Leads-of_kept : {m : Act A} → ((d : Db) → P d → R d) → Keeps P m → Leads P P R m
  Leads-of_kept {m} fails k = record { run = λ w h. failing (m w).0 (m w).1 fails (k.from w h) }

  pub Keeps-of_end : {m : Act A} → Leads P R R m → (w : World) → P w.db → R (m w).1.db
  Keeps-of_end {m} t w h = both R (m w).0 (m w).1 (t.run w h)

module _ {A : Type 0} {P Q R : Db → Type 0} where
  pub Leads-branch :
      (test : Bool) (yes' no' : Act A)
      → (test ≡ true → Leads P Q R yes')
      → (test ≡ false → Leads P Q R no')
      → Leads P Q R (if test then yes' else no')
  Leads-branch true yes' no' ky kn = ky refl
  Leads-branch false yes' no' ky kn = kn refl
