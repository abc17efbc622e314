-- ===== src/Store/Keeps.antt =====
-- Invariants of the database under actions, one rule for each way to build an action. An action keeps
-- an invariant whether it returns or fails, whatever calls fail.
use aether_relay.Prelude.{
  if◌then◌else◌, Option-cases, String, ◌≡◌, refl, inl, inr, Bool, true, false, Option, none, some,
}
use aether_relay.Error.{AppError, Result, ok, err}
use aether_relay.Store.{
  Outside, World, Act, continue, ◌>>=◌, pure, raise, committed, call, settle_statement, statement,
  query, execute, finish, transaction, now_secs, now_v7,
}
use aether_relay.Store.Rows.{Db}

pub record Keeps {A : Type 0} (P : Db → Type 0) (m : Act A) : Type 0 where
  pub from : (w : World) → P w.db → P (m w).1.db

module _ {P : Db → Type 0} {A B : Type 0} where
  continue_keeps :
      (r : Result A) (f : A → Act B) (w : World)
      → ((a : A) → r ≡ ok a → Keeps P (f a))
      → P w.db
      → P (continue r f w).1.db
  continue_keeps (ok a) f w keep h = (keep a refl).from w h
  continue_keeps (err e) f w keep h = h

  pub Keeps-bind :
      (first : Act A) (next : A → Act B)
      → Keeps P first
      → ((a : A) → Keeps P (next a))
      → Keeps P (first >>= next)
  unfolding ◌>>=◌
  Keeps-bind first next kept keep_next = record {
    from = λ w h. continue_keeps (first w).0 next (first w).1 (λ a _. keep_next a) (kept.from w h);
  }

module _ {P : Db → Type 0} {A : Type 0} where
  pub Keeps-pure : (a : A) → Keeps P (pure a)
  Keeps-pure a = record { from = λ w h. h }

  pub Keeps-raise : (e : AppError) → Keeps P (raise {A = A} e)
  Keeps-raise e = record { from = λ w h. h }

module _ {P : Db → Type 0} (o : Outside) where
  pub Keeps-call : Keeps P (call o)
  unfolding call
  Keeps-call = record {
    from = λ w h. elim (Option-cases (o.fault w.calls)) [
      | inl fine ↦ rw (fine, call) h
      | inr (e, fails) ↦ rw (fails, call) h
    ];
  }

  pub Keeps-now_secs : Keeps P (now_secs o)
  unfolding now_secs
  Keeps-now_secs = record { from = λ w h. h }

  pub Keeps-now_v7 : Keeps P (now_v7 o)
  unfolding now_v7
  Keeps-now_v7 = record { from = λ w h. h }

module _ (o : Outside) {A : Type 0} where
  settle_keeps :
      (P : Db → Type 0) (broken : Option String) (read : Db → A) (write : Db → Db) (w : World)
      → (broken ≡ none → P w.db → P (write w.db))
      → P w.db
      → P (settle_statement o broken read write w).1.db
  settle_keeps P none read write w keep h = keep refl h
  settle_keeps P (some e) read write w keep h = h

module _ {P : Db → Type 0} (o : Outside) {A : Type 0} where
  -- A statement may use that its constraint holds.
  pub Keeps-statement :
      (breaks : Db → Option String) (read : Db → A) (write : Db → Db)
      → ((d : Db) → breaks d ≡ none → P d → P (write d))
      → Keeps P (statement o breaks read write)
  unfolding statement
  Keeps-statement breaks read write keep =
      Keeps-bind (call o) (λ _ w. settle_statement o (breaks w.db) read write w) (Keeps-call o)
        (λ _. record { from = λ w h. settle_keeps o P (breaks w.db) read write w (keep w.db) h })

  pub Keeps-query : (read : Db → A) → Keeps P (query o read)
  unfolding query
  Keeps-query read = Keeps-statement (λ _. none) read (λ d. d) (λ d _ h. h)

committed_keeps :
    {A : Type 0} (P : Db → Type 0) (before : Db) (a : A) (c : Result (Unit {0})) (w : World)
    → P before
    → P w.db
    → P (committed before a c w).1.db
committed_keeps P before a (ok _) w b h = h
committed_keeps P before a (err e) w b h = b

finish_keeps :
    {A : Type 0} (o : Outside) (P : Db → Type 0) (before : Db) (r : Result A) (w : World)
    → P before
    → P w.db
    → P (finish o before r w).1.db
finish_keeps o P before (err e) w b h = b
finish_keeps o P before (ok a) w b h =
    committed_keeps P before a (call o w).0 (call o w).1 b ((Keeps-call {P = P} o).from w h)

module _ {P : Db → Type 0} (o : Outside) where
  pub Keeps-execute : (write : Db → Db) → ((d : Db) → P d → P (write d)) → Keeps P (execute o write)
  unfolding execute
  Keeps-execute write keep = Keeps-statement o (λ _. none) (λ _. tt) write (λ d _ h. keep d h)

  pub Keeps-transaction : {A : Type 0} (body : Act A) → Keeps P body → Keeps P (transaction o body)
  unfolding transaction
  Keeps-transaction body kept =
      Keeps-bind (call o) (λ _ w. finish o w.db (body w).0 (body w).1) (Keeps-call o)
        (λ _. record {
          from = λ w h. finish_keeps o P w.db (body w).0 (body w).1 h (kept.from w h);
        })

module _ {P : Db → Type 0} {A : Type 0} where
  pub Keeps-branch :
      (test : Bool) (yes' no' : Act A)
      → Keeps P yes'
      → Keeps P no'
      → Keeps P (if test then yes' else no')
  Keeps-branch true yes' no' ky kn = ky
  Keeps-branch false yes' no' ky kn = kn

pub ruleset keeps_rules = (
  Keeps-branch, Keeps-bind, Keeps-pure, Keeps-raise, Keeps-call, Keeps-now_secs, Keeps-now_v7,
  Keeps-statement, Keeps-query, Keeps-execute, Keeps-transaction,
)
