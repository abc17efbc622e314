-- ===== src/Prelude/Text.antt =====
-- What the program uses of Rust's `str` and `u64` printing: bytes of a text, ASCII case and trimming.
use Prim.Native.Nat.{ℕ, zero, suc, ◌/◌, ◌%◌}
use Prim.Native.Char.{code}
use Prim.Native.String.{String, char_at}
use mathlib.Core.Path.{◌≡◌, refl}
use mathlib.Core.List.{List, [], ◌∷◌}
use aether_relay.Prelude.Tests.{◌==◌, if◌then◌else◌}

-- The code points of a text.
abbrev pub codes : String → List ℕ
codes String.[] = []
codes (String.◌∷◌ c s) = code c ∷ codes s

-- `u64::to_string`: the decimal digits, the last one in front of those already written. Every round
-- divides by ten, so as many rounds as the number itself and one are enough.
decimal_from : ℕ → ℕ → String → String
decimal_from zero n digits = digits
decimal_from (suc fuel) n digits =
    let digits' = String.◌∷◌ (char_at "0123456789" (n % 10)) digits in
    let rest = decimal_from fuel (n / 10) digits' in if n / 10 == 0 then digits' else rest

unfoldable pub decimal : ℕ → String
unfolding decimal_from
decimal n = decimal_from (suc n) n ""

decimal_test : (decimal 0 ≡ "0") × (decimal 503 ≡ "503") × (decimal 1700000000 ≡ "1700000000")
unfolding decimal
decimal_test = (refl, refl, refl)
