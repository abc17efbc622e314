-- ===== src/Prelude/Str.antt =====
-- What the program uses of Rust's `str`: bytes, trimming, splitting, ASCII case and reading a u64.
-- `to_lowercase` is that of ASCII: of the letters outside ASCII only the Kelvin sign and a few others
-- have an ASCII letter in their lower case, and the names that are looked up have none of these.
use Prim.Native.Nat.{ℕ, ◌+◌, ◌-◌, ◌*◌, ◌/◌, ◌%◌, ◌^◌}
use Prim.Native.Char.{Char, code}
use Prim.Native.String.{String, char_at}
use mathlib.Core.Path.{refl, ◌≡◌}
use mathlib.Core.Bool.{Bool, true, false, ◌&&◌, ◌||◌}
use mathlib.Core.Option.{Option, none, some}
use mathlib.Core.List.{List, [], ◌∷◌, ◌++◌}
use aether_relay.Prelude.Tests.{ltb, leb, ◌==◌, ◌=?◌, if◌then◌else◌}

-- The UTF-8 bytes of a character.
abbrev utf8 : ℕ → List ℕ
utf8 c =
    if ltb c (2 ^ 7)
    then c ∷ []
    else if ltb c (2 ^ 11)
    then (192 + c / 2 ^ 6) ∷ (128 + c % 2 ^ 6) ∷ []
    else if ltb c (2 ^ 16)
    then (224 + c / 2 ^ 12) ∷ (128 + c / 2 ^ 6 % 2 ^ 6) ∷ (128 + c % 2 ^ 6) ∷ []
    else (240 + c / 2 ^ 18)
      ∷ (128 + c / 2 ^ 12 % 2 ^ 6)
      ∷ (128 + c / 2 ^ 6 % 2 ^ 6)
      ∷ (128 + c % 2 ^ 6)
      ∷ []

unfoldable pub as_bytes : String → List ℕ
as_bytes String.[] = []
as_bytes (String.◌∷◌ c s) = utf8 (code c) ++ as_bytes s

-- `char::is_whitespace`
abbrev is_whitespace : ℕ → Bool
is_whitespace c =
    leb 9 c && leb c 13
    || c == 32
    || c == 133
    || c == 160
    || c == 5760
    || leb 8192 c && leb c 8202
    || c == 8232
    || c == 8233
    || c == 8239
    || c == 8287
    || c == 12288

abbrev pub is_empty : String → Bool
is_empty String.[] = true
is_empty (String.◌∷◌ c s) = false

module _ (p : ℕ → Bool) where
  abbrev pub trim_start_matches : String → String
  trim_start_matches String.[] = ""
  trim_start_matches (String.◌∷◌ c s) =
      let rest = trim_start_matches s in if p (code c) then rest else String.◌∷◌ c s

  abbrev pub trim_end_matches : String → String
  trim_end_matches String.[] = ""
  trim_end_matches (String.◌∷◌ c s) =
      let rest = trim_end_matches s in if is_empty rest && p (code c) then "" else String.◌∷◌ c rest

unfoldable pub trim : String → String
trim s = trim_end_matches is_whitespace (trim_start_matches is_whitespace s)

-- A character in front of the first of the pieces.
abbrev onto_first : Char → List String → List String
onto_first c [] = String.◌∷◌ c "" ∷ []
onto_first c (piece ∷ pieces) = String.◌∷◌ c piece ∷ pieces

-- `str::split` at a character: always one piece more than there are separators.
unfoldable pub split : ℕ → String → List String
split sep String.[] = "" ∷ []
split sep (String.◌∷◌ c s) =
    let rest = split sep s in if code c == sep then "" ∷ rest else onto_first c rest

abbrev onto_left : Char → Option (String × String) → Option (String × String)
onto_left c none = none
onto_left c (some (left, right)) = some (String.◌∷◌ c left, right)

-- The two parts that `splitn(2, sep)` gives where the separator occurs; `none` is one part.
unfoldable pub splitn_two : ℕ → String → Option (String × String)
splitn_two sep String.[] = none
splitn_two sep (String.◌∷◌ c s) =
    let rest = splitn_two sep s in if code c == sep then some ("", s) else onto_left c rest

unfoldable pub strip_prefix : String → String → Option String
strip_prefix String.[] s = some s
strip_prefix (String.◌∷◌ c prefix) String.[] = none
strip_prefix (String.◌∷◌ c prefix) (String.◌∷◌ d s) =
    let rest = strip_prefix prefix s in if code c == code d then rest else none

unfoldable pub ends_with : String → String → Bool
ends_with suffix String.[] = is_empty suffix
ends_with suffix (String.◌∷◌ c s) =
    let rest = ends_with suffix s in String.◌∷◌ c s =? suffix || rest

-- The capital letters and their small ones, at the same place.
abbrev lower_char : Char → Char
lower_char c =
    if leb b'A' (code c) && leb (code c) b'Z'
    then char_at "abcdefghijklmnopqrstuvwxyz" (code c - b'A')
    else c

unfoldable pub to_lowercase : String → String
to_lowercase String.[] = ""
to_lowercase (String.◌∷◌ c s) = String.◌∷◌ (lower_char c) (to_lowercase s)

abbrev pub eq_ignore_ascii_case : String → String → Bool
eq_ignore_ascii_case s t = to_lowercase s =? to_lowercase t

-- The digits from the left, with the number that they continue; `none` if one is not a digit or the
-- number leaves the u64.
abbrev push_digit : ℕ → ℕ → Option ℕ
push_digit n c =
    if leb b'0' c && leb c b'9' && ltb (n * 10 + (c - b'0')) (2 ^ 64)
    then some (n * 10 + (c - b'0'))
    else none

unfoldable digits : Option ℕ → String → Option ℕ
digits none s = none
digits (some n) String.[] = some n
digits (some n) (String.◌∷◌ c s) = digits (push_digit n (code c)) s

abbrev unsigned : String → Option ℕ
unsigned String.[] = none
unsigned (String.◌∷◌ c s) = digits (some 0) (String.◌∷◌ c s)

-- `str::parse::<u64>`, which allows a plus sign.
unfoldable pub parse_u64 : String → Option ℕ
unfolding digits
parse_u64 String.[] = none
parse_u64 (String.◌∷◌ c s) = if code c == b'+' then unsigned s else unsigned (String.◌∷◌ c s)

str_test :
    (trim "  a b " ≡ "a b")
    × (split b',' "t=1,v1=x" ≡ "t=1" ∷ "v1=x" ∷ [])
    × (splitn_two b'=' "v1=a=b" ≡ some ("v1", "a=b"))
    × (strip_prefix "sha256=" "sha256=ab" ≡ some "ab")
    × (ends_with ".localhost" "a.localhost" ≡ true)
    × (to_lowercase "GitHub" ≡ "github")
    × (parse_u64 "+1700000000" ≡ some 1700000000)
    × (parse_u64 "18446744073709551616" ≡ none)
    × (as_bytes "aé" ≡ 97 ∷ 195 ∷ 169 ∷ [])
unfolding trim split splitn_two strip_prefix ends_with to_lowercase parse_u64 as_bytes
str_test = (refl, refl, refl, refl, refl, refl, refl, refl, refl)
