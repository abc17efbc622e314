-- ===== src/Crypto/Stripe.antt =====
-- src/crypto/stripe.rs: the header `t=…,v1=…,v1=…`, the tolerance and the signatures, any of which
-- may fit. `SystemTime::now` is the argument `now`.
use aether_relay.Prelude.{
  ltb, ◌=?◌, if◌then◌else◌, ℕ, ◌-◌, String, Bool, false, ◌||◌, Option, none, some, List, [], ◌∷◌,
  ◌++◌,
}
use aether_relay.Prelude.Str.{as_bytes, trim, split, splitn_two, parse_u64}
use aether_relay.Prelude.Text.{decimal}
use aether_relay.Models.{Bytes}
use aether_relay.Error.{invalid_signature, Result, err}
use aether_relay.Error.Try.{◌>>=◌}
use aether_relay.Crypto.Crates.{Crates}
use aether_relay.Crypto.Schemes.{accept_if, required}

abbrev pub default_tolerance_secs : ℕ
default_tolerance_secs = 300

-- What the loop over the items has read: `signatures` in the order of the header.
pub record Parsed : Type 0 where
  pub timestamp : Option ℕ
  pub signatures : List String

abbrev set_timestamp : Option ℕ → Parsed → Parsed
set_timestamp none p = p
set_timestamp (some ts) p = record p { timestamp = some ts }

abbrev parse_item : Option (String × String) → Parsed → Parsed
parse_item none p = p
parse_item (some (key, val)) p =
    if trim key =? "t"
    then set_timestamp (parse_u64 (trim val)) p
    else if trim key =? "v1"
    then record p { signatures = p.signatures ++ trim val ∷ [] }
    else p

parse_items : List String → Parsed → Parsed
parse_items [] p = p
parse_items (item ∷ items) p = parse_items items (parse_item (splitn_two b'=' item) p)

unfoldable pub parse_header : String → Parsed
unfolding parse_items
parse_header h = parse_items (split b',' h) (record { timestamp = none; signatures = [] })

unfoldable pub abs_diff : ℕ → ℕ → ℕ
abs_diff a b = if ltb a b then b - a else a - b

abbrev pub signed_payload : ℕ → Bytes → Bytes
signed_payload ts body = as_bytes (decimal ts) ++ b'.' ∷ body

abbrev pub tolerance_or_default : Option ℕ → ℕ
tolerance_or_default none = default_tolerance_secs
tolerance_or_default (some secs) = secs

module _ (c : Crates) where
  abbrev pub fits_one : Option (Bytes → Bytes → Bool) → Option Bytes → Bytes → Bool
  fits_one none expected payload = false
  fits_one (some accepts) none payload = false
  fits_one (some accepts) (some expected) payload = accepts payload expected

  -- The loop over the signatures.
  unfoldable pub any_fits : Bytes → Bytes → List String → Bool
  any_fits secret payload [] = false
  any_fits secret payload (sig_hex ∷ signatures) =
      fits_one (c.new_from_slice secret) (c.decode sig_hex) payload
      || any_fits secret payload signatures

  abbrev pub check_signatures : Bytes → Bytes → ℕ → ℕ → ℕ → List String → Result (Unit {0})
  check_signatures secret body now tolerance ts [] = err invalid_signature
  check_signatures secret body now tolerance ts (s ∷ signatures) =
      if ltb tolerance (abs_diff now ts)
      then err invalid_signature
      else accept_if (any_fits secret (signed_payload ts body) (s ∷ signatures))

  unfoldable pub verify_stripe : Bytes → Bytes → String → Option ℕ → ℕ → Result (Unit {0})
  unfolding parse_header abs_diff any_fits
  verify_stripe secret body signature_header tolerance_secs now = do
    let parsed = parse_header signature_header
    ts ← required parsed.timestamp
    check_signatures secret body now (tolerance_or_default tolerance_secs) ts parsed.signatures
