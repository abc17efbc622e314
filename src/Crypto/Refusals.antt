-- ===== src/Crypto/Refusals.antt =====
-- Every way in which a signature check of src/crypto fails, and the names of the providers.
use aether_relay.Prelude.{
  ltb, if◌then◌else◌, ℕ, String, ◌+++◌, ◌≡◌, ap, Bool, true, false, Option, none, some, List, [],
  ◌∷◌, ◌++◌,
}
use aether_relay.Prelude.Str.{as_bytes, trim, strip_prefix}
use aether_relay.Models.{Bytes}
use aether_relay.Error.{AppError, invalid_signature, Result, err, into_response}
use aether_relay.Error.Try.{◌>>=◌}
use aether_relay.Crypto.Crates.{Crates}
use aether_relay.Crypto.Headers.{HeaderMap, get, to_str, or_else}
use aether_relay.Crypto.Schemes.{
  accept_if, required, sized, verify_github, verify_generic, verify_midtrans, verify_discord,
}
use aether_relay.Crypto.Signature.{
  Provider, github, stripe, midtrans, discord, generic, verify_signature,
}
use aether_relay.Crypto.Stripe.{
  parse_header, abs_diff, signed_payload, tolerance_or_default, any_fits, check_signatures,
  verify_stripe,
}

-- A check that fails, fails as an invalid signature.
record OnlyInvalid {A : Type 0} (r : Result A) : Type 0 where
  only : (e : AppError) → r ≡ err e → e ≡ invalid_signature

accept_if_only : (b : Bool) → OnlyInvalid (accept_if b)
accept_if_only true = record { only = λ e h. cc }
accept_if_only false = record { only = λ e h. cc }

required_only :
    {A B : Type 0} (found : Option A) (next : A → Result B)
    → ((a : A) → OnlyInvalid (next a))
    → OnlyInvalid (required found >>= next)
required_only none next rest = record { only = λ e h. cc }
required_only (some a) next rest = rest a

module _ (c : Crates) where
  github_only : (secret body : Bytes) (sig : String) → OnlyInvalid (verify_github c secret body sig)
  unfolding verify_github
  github_only secret body sig = required_only (strip_prefix "sha256=" sig) _ λ hex.
      required_only (c.decode hex) _ λ expected.
        required_only (c.new_from_slice secret) _ λ accepts. accept_if_only (accepts body expected)

  generic_only :
      (secret body : Bytes) (sig : String) → OnlyInvalid (verify_generic c secret body sig)
  unfolding verify_generic
  generic_only secret body sig = required_only (c.decode (trim sig)) _ λ expected.
      required_only (c.new_from_slice secret) _ λ accepts. accept_if_only (accepts body expected)

  midtrans_only : (key : String) (body : Bytes) → OnlyInvalid (verify_midtrans c key body)
  unfolding verify_midtrans
  midtrans_only key body = required_only (c.from_slice body) _ λ member.
      required_only (member "order_id") _ λ order_id.
        required_only (member "status_code") _ λ status.
          required_only (member "gross_amount") _ λ amount.
            required_only (member "signature_key") _ λ signature. accept_if_only (
              c.ct_eq
                (as_bytes (c.encode (c.sha512 (as_bytes (order_id +++ status +++ amount +++ key)))))
                (as_bytes signature))

  discord_only :
      (key : String) (body : Bytes) (sig ts : String)
      → OnlyInvalid (verify_discord c key body sig ts)
  unfolding verify_discord
  discord_only key body sig ts = required_only (c.decode key) _ λ pk.
      required_only (c.decode sig) _ λ sb. required_only (sized 32 pk) _ λ pa.
        required_only (sized 64 sb) _ λ sa.
          required_only (c.from_bytes pa) _
            λ accepts. accept_if_only (accepts (as_bytes ts ++ body) sa)

  late_only :
      (late : Bool) (r : Result (Unit {0}))
      → OnlyInvalid r
      → OnlyInvalid (if late then err invalid_signature else r)
  late_only true r rest = record { only = λ e h. cc }
  late_only false r rest = rest

  signatures_only :
      (secret body : Bytes) (now tolerance ts : ℕ) (signatures : List String)
      → OnlyInvalid (check_signatures c secret body now tolerance ts signatures)
  signatures_only secret body now tolerance ts [] = record { only = λ e h. cc }
  signatures_only secret body now tolerance ts (s ∷ signatures) =
      late_only (ltb tolerance (abs_diff now ts)) _
        (accept_if_only (any_fits c secret (signed_payload ts body) (s ∷ signatures)))

  stripe_only :
      (secret body : Bytes) (sig : String) (tolerance : Option ℕ) (now : ℕ)
      → OnlyInvalid (verify_stripe c secret body sig tolerance now)
  unfolding verify_stripe
  stripe_only secret body sig tolerance now = required_only (parse_header sig).timestamp _ λ ts.
      signatures_only secret body now (tolerance_or_default tolerance) ts
        (parse_header sig).signatures

  signature_only :
      (provider : Provider) (secret : String) (body : Bytes) (headers : HeaderMap) (now : ℕ)
      → OnlyInvalid (verify_signature c provider secret body headers now)
  unfolding verify_signature
  signature_only github secret body headers now =
      required_only (to_str (get "x-hub-signature-256" headers)) _
        λ sig. github_only (as_bytes secret) body sig
  signature_only stripe secret body headers now =
      required_only (to_str (get "stripe-signature" headers)) _
        λ sig. stripe_only (as_bytes secret) body sig none now
  signature_only midtrans secret body headers now = midtrans_only secret body
  signature_only discord secret body headers now =
      required_only (to_str (get "x-signature-ed25519" headers)) _ λ sig.
        required_only (to_str (get "x-signature-timestamp" headers)) _
          λ ts. discord_only secret body sig ts
  signature_only generic secret body headers now =
      required_only (to_str (or_else (get "x-signature" headers) (get "signature" headers))) _
        λ sig. generic_only (as_bytes secret) body sig

  -- Whatever the provider, the secret, the body and the headers, a signature check that fails answers 401
  -- with the one message for an invalid signature, so that the answer does not tell what was wrong.
  pub verify_signature_refuses :
      (provider : Provider) (secret : String) (body : Bytes) (headers : HeaderMap) (now : ℕ)
      (e : AppError)
      → verify_signature c provider secret body headers now ≡ err e
      → into_response e ≡ into_response invalid_signature
  verify_signature_refuses provider secret body headers now e h =
      ap into_response ((signature_only provider secret body headers now).only e h)
