-- ===== src/Store/Atomicity.antt =====
-- A transaction that fails leaves the database as it was, as every transaction of the program relies on.
use aether_relay.Prelude.{◌≡◌, refl, ◌∙◌, arith}
use aether_relay.Error.{AppError, Result, ok, err}
use aether_relay.Store.{Outside, World, Act, continue, ◌>>=◌, committed, call, finish, transaction}
use aether_relay.Store.Rows.{Db}

module _ (o : Outside) where
  pub call-db : (w : World) → (call o w).1.db ≡ w.db
  unfolding call
  call-db w = ground arith

module _ {A : Type 0} where
  committed_err :
      (before : Db) (a : A) (c : Result (Unit {0})) (w : World) (e : AppError)
      → (committed before a c w).0 ≡ err e
      → (committed before a c w).1.db ≡ before
  committed_err before a (ok _) w e h = cc
  committed_err before a (err x) w e h = refl

  finish_err :
      (o : Outside) (before : Db) (r : Result A) (w : World) (e : AppError)
      → (finish o before r w).0 ≡ err e
      → (finish o before r w).1.db ≡ before
  finish_err o before (ok a) w e h = committed_err before a (call o w).0 (call o w).1 e h
  finish_err o before (err x) w e h = refl

module _ {A B : Type 0} where
  continue_err :
      (P : Db → Type 0) (r : Result A) (f : A → Act B) (w : World) (e : AppError)
      → P w.db
      → ((a : A) → (f a w).0 ≡ err e → P (f a w).1.db)
      → (continue r f w).0 ≡ err e
      → P (continue r f w).1.db
  continue_err P (ok a) f w e h rest k = rest a k
  continue_err P (err x) f w e h rest k = h

module _ (o : Outside) {A : Type 0} where
  -- Behind a call that writes nothing, only the rest can have written.
  pub call_bind_err :
      (f : Unit {0} → Act A) (w : World) (e : AppError)
      → ((v : World) → v.db ≡ w.db → (f tt v).0 ≡ err e → (f tt v).1.db ≡ w.db)
      → ((call o >>= f) w).0 ≡ err e
      → ((call o >>= f) w).1.db ≡ w.db
  unfolding ◌>>=◌
  call_bind_err f w e rest h =
      continue_err (λ d. d ≡ w.db) (call o w).0 f (call o w).1 e (call-db o w)
        (λ _ k. rest (call o w).1 (call-db o w) k) h

  pub transaction_atomic :
      (body : Act A) (w : World) (e : AppError)
      → (transaction o body w).0 ≡ err e
      → (transaction o body w).1.db ≡ w.db
  unfolding transaction
  transaction_atomic body w e h =
      call_bind_err (λ _ u. finish o u.db (body u).0 (body u).1) w e
        (λ v same k. finish_err o v.db (body v).0 (body v).1 e k ∙ same) h
