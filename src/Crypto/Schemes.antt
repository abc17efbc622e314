-- ===== src/Crypto/Schemes.antt =====
-- src/crypto/github.rs, generic.rs, midtrans.rs and discord.rs.
use aether_relay.Prelude.{
  ◌==◌, if◌then◌else◌, length, ℕ, String, ◌+++◌, Bool, true, false, Option, none, some, ◌++◌,
}
use aether_relay.Prelude.Str.{as_bytes, trim, strip_prefix}
use aether_relay.Models.{Bytes}
use aether_relay.Error.{invalid_signature, Result, err, ok, status_code}
use aether_relay.Error.Try.{ok_or, ◌>>=◌}
use aether_relay.Crypto.Crates.{Crates}

-- The end of every scheme.
abbrev pub accept_if : Bool → Result (Unit {0})
accept_if true = ok tt
accept_if false = err invalid_signature

abbrev pub required {ℓ} : {A : Type ℓ} → Option A → Result A
required = ok_or invalid_signature

-- `try_into` an array of the length.
abbrev pub sized : ℕ → Bytes → Option Bytes
sized n bytes = if length bytes == n then some bytes else none

module _ (c : Crates) where
  unfoldable pub verify_github : Bytes → Bytes → String → Result (Unit {0})
  verify_github secret body signature_header = do
    sig_hex ← required (strip_prefix "sha256=" signature_header)
    expected ← required (c.decode sig_hex)
    accepts ← required (c.new_from_slice secret)
    accept_if (accepts body expected)

  unfoldable pub verify_generic : Bytes → Bytes → String → Result (Unit {0})
  verify_generic secret body signature_hex = do
    expected ← required (c.decode (trim signature_hex))
    accepts ← required (c.new_from_slice secret)
    accept_if (accepts body expected)

  unfoldable pub verify_midtrans : String → Bytes → Result (Unit {0})
  verify_midtrans server_key body = do
    member ← required (c.from_slice body)
    order_id ← required (member "order_id")
    status_code ← required (member "status_code")
    gross_amount ← required (member "gross_amount")
    signature_key ← required (member "signature_key")
    let payload = order_id +++ status_code +++ gross_amount +++ server_key
    let computed_hex = c.encode (c.sha512 (as_bytes payload))
    accept_if (c.ct_eq (as_bytes computed_hex) (as_bytes signature_key))

  unfoldable pub verify_discord : String → Bytes → String → String → Result (Unit {0})
  verify_discord public_key_hex body signature_hex timestamp = do
    pk_bytes ← required (c.decode public_key_hex)
    sig_bytes ← required (c.decode signature_hex)
    pk_array ← required (sized 32 pk_bytes)
    sig_array ← required (sized 64 sig_bytes)
    accepts ← required (c.from_bytes pk_array)
    accept_if (accepts (as_bytes timestamp ++ body) sig_array)
