-- ===== src/Store/Still.antt =====
-- Actions that write nothing, and actions that write nothing when they fail.
use aether_relay.Prelude.{◌≡◌, refl, ◌∙◌}
use aether_relay.Error.{AppError, Result, err, ok}
use aether_relay.Store.{World, Act, continue, ◌>>=◌, pure, lift}
use aether_relay.Store.Rows.{Db}
use aether_relay.Store.Keeps.{Keeps}

-- Every property of the database is kept.
abbrev pub Still : {A : Type 0} → Act A → Type 1
Still m = (P : Db → Type 0) → Keeps P m

pub record IsAtomic {A : Type 0} (m : Act A) : Type 0 where
  pub undone : (w : World) (e : AppError) → (m w).0 ≡ err e → (m w).1.db ≡ w.db

module _ {A : Type 0} where
  pub Still-lift : (r : Result A) → Still (lift r)
  Still-lift r P = record { from = λ w h. h }

  pub lift-IsAtomic : (r : Result A) → IsAtomic (lift r)
  lift-IsAtomic r = record { undone = λ w e h. refl }

module _ {A B : Type 0} where
  continue_undone :
      (r : Result A) (f : A → Act B) (d : Db) (w : World) (e : AppError)
      → w.db ≡ d
      → ((a : A) → IsAtomic (f a))
      → (continue r f w).0 ≡ err e
      → (continue r f w).1.db ≡ d
  continue_undone (ok a) f d w e same atomic h = (atomic a).undone w e h ∙ same
  continue_undone (err x) f d w e same atomic h = same

  -- Behind an action that writes nothing.
  pub bind-IsAtomic :
      (m : Act A) (f : A → Act B) → Still m → ((a : A) → IsAtomic (f a)) → IsAtomic (m >>= f)
  unfolding ◌>>=◌
  bind-IsAtomic m f still atomic = record {
    undone = λ w e h.
        continue_undone (m w).0 f w.db (m w).1 e ((still (λ d. d ≡ w.db)).from w refl) atomic h;
  }

  continue-pure_undone :
      (r : Result A) (f : A → B) (w : World) (d : Db) (e : AppError)
      → ((x : AppError) → r ≡ err x → w.db ≡ d)
      → (continue r (λ a. pure (f a)) w).0 ≡ err e
      → (continue r (λ a. pure (f a)) w).1.db ≡ d
  continue-pure_undone (ok a) f w d e undone h = cc
  continue-pure_undone (err x) f w d e undone h = undone x refl

  -- In front of a value that is returned.
  pub bind_pure-IsAtomic : (m : Act A) (f : A → B) → IsAtomic m → IsAtomic (m >>= λ a. pure (f a))
  unfolding ◌>>=◌
  bind_pure-IsAtomic m f atomic = record {
    undone = λ w e h. continue-pure_undone (m w).0 f (m w).1 w.db e (atomic.undone w) h;
  }
