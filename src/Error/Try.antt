-- ===== src/Error/Try.antt =====
-- The `?` operator on a `Result` that touches no state.
use aether_relay.Prelude.{◌≡◌, refl, Option, none, some}
use aether_relay.Error.{AppError, Result, err, ok}

-- `Result::and_then`, its function first.
abbrev pub and_then {ℓ} : {T U : Type ℓ} → (T → Result U) → Result T → Result U
and_then next (err problem) = err problem
and_then next (ok value) = next value

infixl 5 ◌>>=◌
abbrev pub ◌>>=◌ {ℓ} : {T U : Type ℓ} → Result T → (T → Result U) → Result U
tried >>= next = and_then next tried

-- A check that gives nothing but its success, before what follows.
infixl 5 ◌>>◌
abbrev pub ◌>>◌ : {U : Type 0} → Result (Unit {0}) → Result U → Result U
check >> rest = and_then (λ _. rest) check

-- `Option::ok_or`
abbrev pub ok_or {ℓ} : {T : Type ℓ} → AppError → Option T → Result T
ok_or e none = err e
ok_or e (some value) = ok value

-- A required value that was there, where the rest returns.
pub required_inv :
    {T U : Type 0} (e : AppError) (o : Option T) (next : T → Result U) {u : U}
    → (ok_or e o >>= next) ≡ ok u
    → (t : T) × (o ≡ some t) × (next t ≡ ok u)
required_inv e none next h = cc
required_inv e (some t) next h = (t, refl, h)

-- A check that passed, where the rest returns.
pub check_inv :
    {T U : Type 0} (r : Result T) (next : T → Result U) {u : U}
    → (r >>= next) ≡ ok u
    → (t : T) × (r ≡ ok t) × (next t ≡ ok u)
check_inv (ok t) next h = (t, refl, h)
check_inv (err e) next h = cc
