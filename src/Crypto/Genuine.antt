-- ===== src/Crypto/Genuine.antt =====
-- What an accepted signature shows: the schemes of src/crypto accept exactly the bodies that carry the
-- code or the signature of the stored secret.
use aether_relay.Prelude.{
  ltb, if◌then◌else◌, or_iff, Any, ℕ, ◌+◌, ◌≤◌, String, ◌≡◌, refl, ◌↔◌, Bool, true, Option, none,
  some, List, [], ◌∷◌, arith,
}
use aether_relay.Prelude.Str.{strip_prefix}
use aether_relay.Models.{Bytes}
use aether_relay.Error.{invalid_signature, err, ok}
use aether_relay.Crypto.Crates.{Crates, HmacIs}
use aether_relay.Crypto.Schemes.{accept_if, verify_github}
use aether_relay.Error.Try.{required_inv}
use aether_relay.Crypto.Stripe.{
  default_tolerance_secs, parse_header, abs_diff, signed_payload, fits_one, any_fits,
  check_signatures, verify_stripe,
}

-- The text is hex for the code of the message under the secret.
abbrev pub IsTagOf : Crates → (Bytes → Bytes → Bytes) → Bytes → Bytes → String → Type 0
IsTagOf c tag secret message sig = c.decode sig ≡ some (tag secret message)

pub accept_if_iff : (b : Bool) → (accept_if b ≡ ok tt) ↔ (b ≡ true)
accept_if_iff b = ground arith

tolerated_iff :
    (now tolerance ts : ℕ) (b : Bool)
    → ((if ltb tolerance (abs_diff now ts) then err invalid_signature else accept_if b) ≡ ok tt)
      ↔ ((now ≤ ts + tolerance) × (ts ≤ now + tolerance) × (b ≡ true))
unfolding abs_diff
tolerated_iff now tolerance ts b =
    (λ h. (ground arith, ground arith, ground arith), λ (low, high, fits). ground arith)

module _ (c : Crates) (tag : Bytes → Bytes → Bytes) (hmac : HmacIs c tag) (secret : Bytes)
    (accepts : Bytes → Bytes → Bool) (usable : c.new_from_slice secret ≡ some accepts) where
  -- Where `verify_slice` accepts exactly the code of the key and the message, and the secret is a key that it
  -- takes: a GitHub signature is accepted exactly when it is `sha256=` and hex for the body's code.
  pub verify_github_iff :
      (body : Bytes) (header : String)
      → (verify_github c secret body header ≡ ok tt) ↔ (
          (hex : String) × (strip_prefix "sha256=" header ≡ some hex)
          × IsTagOf c tag secret body hex)
  unfolding verify_github
  verify_github_iff body header = (
    λ h.
        let (hex, found, h1) = required_inv invalid_signature (strip_prefix "sha256=" header) _ h in
        let (expected, decoded, h2) = required_inv invalid_signature (c.decode hex) _ h1 in
        let (accepts', usable', h3) =
          required_inv invalid_signature (c.new_from_slice secret) _ h2 in
        (
          hex,
          found,
          cc (decoded, (hmac secret accepts' usable' body expected).0 ((accept_if_iff _).0 h3)),
        ),
    λ (hex, found, decoded).
        rw (found, decoded, usable, (hmac secret accepts usable body (tag secret body)).1 refl)
          refl,
  )

  fits_one_iff :
      (expected : Option Bytes) (payload : Bytes)
      → (fits_one c (some accepts) expected payload ≡ true) ↔ (expected ≡ some (tag secret payload))
  fits_one_iff none payload = (λ h. cc, λ h. cc)
  fits_one_iff (some mac) payload =
      let (sound, complete) = hmac secret accepts usable payload mac in
      (λ h. cc (sound h), λ h. complete (ground arith))

  any_fits_iff :
      (payload : Bytes) (signatures : List String)
      → (any_fits c secret payload signatures ≡ true)
        ↔ Any (IsTagOf c tag secret payload) signatures
  unfolding any_fits
  any_fits_iff payload [] = ground arith
  any_fits_iff payload (sig ∷ signatures) =
      rw usable (or_iff _ _ (fits_one_iff (c.decode sig) payload) (any_fits_iff payload signatures))

  check_signatures_iff :
      (body : Bytes) (now tolerance ts : ℕ) (signatures : List String)
      → (check_signatures c secret body now tolerance ts signatures ≡ ok tt) ↔ (
          (now ≤ ts + tolerance)
          × (ts ≤ now + tolerance)
          × Any (IsTagOf c tag secret (signed_payload ts body)) signatures)
  check_signatures_iff body now tolerance ts [] = (λ h. cc, λ (_, _, none_fits). absurd none_fits)
  check_signatures_iff body now tolerance ts (s ∷ signatures) =
      let (sound, complete) = any_fits_iff (signed_payload ts body) (s ∷ signatures) in
      let (within, enough) =
        tolerated_iff now tolerance ts
          (any_fits c secret (signed_payload ts body) (s ∷ signatures)) in
      (
        λ h. let (low, high, fits) = within h in (low, high, sound fits),
        λ (low, high, fits). enough (low, high, complete fits),
      )

  -- Where `verify_slice` accepts exactly the code of the key and the message, and the secret is a key that it
  -- takes: a Stripe signature is accepted exactly when its header has a time at most 300 seconds from now and
  -- one of its `v1` values is hex for the code of that time, a dot and the body.
  pub verify_stripe_iff :
      (body : Bytes) (header : String) (now : ℕ)
      → (verify_stripe c secret body header none now ≡ ok tt) ↔ (
          (ts : ℕ) × ((parse_header header).timestamp ≡ some ts)
          × (now ≤ ts + 300)
          × (ts ≤ now + 300)
          × Any (IsTagOf c tag secret (signed_payload ts body)) (parse_header header).signatures)
  unfolding verify_stripe
  verify_stripe_iff body header now =
      let signatures_iff = λ (ts : ℕ).
        check_signatures_iff body now default_tolerance_secs ts (parse_header header).signatures in
      (
        λ h.
            let (ts, timed, h1) =
              required_inv invalid_signature (parse_header header).timestamp _ h in
            let (low, high, fits) = (signatures_iff ts).0 h1 in (ts, timed, low, high, fits),
        λ (ts, timed, low, high, fits). rw timed ((signatures_iff ts).1 (low, high, fits)),
      )
