-- ===== src/Tests/Requests.antt =====
-- The handlers and the signature schemes at concrete requests.
use aether_relay.Prelude.{
  ◌==◌, Any, String, ◌≡◌, refl, ◌↔◌, ◌⊎◌, Bool, true, false, ◌&&◌, none, some, List, [], ◌∷◌, ◌++◌,
  arith,
}
use aether_relay.Prelude.Str.{
  as_bytes, trim, split, splitn_two, strip_prefix, to_lowercase, parse_u64,
}
use aether_relay.Models.{Bytes}
use aether_relay.Crypto.Crates.{Crates, HmacIs}
use aether_relay.Crypto.Stripe.{parse_header, abs_diff, any_fits, verify_stripe}
use aether_relay.Crypto.Schemes.{verify_github}
use aether_relay.Api.Target.{Ipv4Addr, is_blocked_v4}
use aether_relay.Crypto.Headers.{HeaderMap, get, to_str}
use aether_relay.Api.Target.Blocks.{to_u32, in_blocked_block, is_blocked_v4-eq-blocks}
use aether_relay.Prelude.Text.{decimal}
use aether_relay.Error.{invalid_signature, err, ok, into_response}
use aether_relay.Crypto.Acceptance.{CratesLaws, IsSigned, verify_signature_iff}
use aether_relay.Crypto.Signature.{stripe, verify_signature}
use aether_relay.Crypto.Refusals.{verify_signature_refuses}
use aether_relay.Api.Auth.Laws.{verify_api_key_iff}
use aether_relay.Api.Auth.{verify_api_key}

-- A hash for tests: the key, then the message. Its hex form is a dictionary of two texts.
abbrev same_bytes : Bytes → Bytes → Bool
same_bytes [] [] = true
same_bytes [] (y ∷ ys) = false
same_bytes (x ∷ xs) [] = false
same_bytes (x ∷ xs) (y ∷ ys) = x == y && same_bytes xs ys

abbrev tag : Bytes → Bytes → Bytes
tag key message = key ++ message

same_bytes_iff : (xs ys : Bytes) → (same_bytes xs ys ≡ true) ↔ (xs ≡ ys)
same_bytes_iff [] [] = ground arith
same_bytes_iff [] (y ∷ ys) = ground arith
same_bytes_iff (x ∷ xs) [] = ground arith
same_bytes_iff (x ∷ xs) (y ∷ ys) = ground (arith, same_bytes_iff xs ys)

abbrev accepts_of : Bytes → Bytes → Bytes → Bool
accepts_of key message mac = same_bytes mac (tag key message)

abbrev pub crates : Crates
crates = record {
  decode = λ s. some (as_bytes s);
  encode = λ b. "";
  new_from_slice = λ key. some (accepts_of key);
  sha512 = λ b. b;
  ct_eq = same_bytes;
  from_slice = λ b. none;
  from_bytes = λ b. none;
}

crates-HmacIs : HmacIs crates tag
crates-HmacIs key accepts usable message mac =
    let same : accepts_of key ≡ accepts = cc in rw (← same) (same_bytes_iff mac (tag key message))

abbrev keys : List String
keys = "alpha" ∷ "beta" ∷ []

abbrev pub body : Bytes
body = 123 ∷ 125 ∷ []

abbrev pub headers : HeaderMap
headers =
    ("x-api-key", some "beta")
    ∷ ("idempotency-key", some "key-9")
    ∷ ("x-hub-signature-256", some "sha256=s3cret{}")
    ∷ ("stripe-signature", some "t=100,v1=s3cret100.{}")
    ∷ []

verify_api_key_iff_example : (verify_api_key headers keys ≡ ok tt) ↔ (
    (keys ≡ [])
    ⊎ ((key : String) × (to_str (get "x-api-key" headers) ≡ some key) × Any (λ k. k ≡ key) keys))
verify_api_key_iff_example = verify_api_key_iff headers keys

schemes : Unit {0}
unfolding verify_stripe parse_header abs_diff any_fits as_bytes trim split splitn_two parse_u64
    decimal strip_prefix verify_github get to_lowercase
schemes = tt

-- The last second of the tolerance, and the first one after it.
tolerance_test :
    (verify_stripe crates (as_bytes "s3cret") body "t=100,v1=s3cret100.{}" none 400 ≡ ok tt)
    × (verify_stripe crates (as_bytes "s3cret") body "t=100,v1=s3cret100.{}" none 401
        ≡ err invalid_signature)
unfolding schemes
tolerance_test = (refl, refl)

crates-CratesLaws : CratesLaws crates tag
crates-CratesLaws = record {
  hmac = crates-HmacIs;
  takes = λ key. (accepts_of key, refl);
  compares = same_bytes_iff;
}

verify_signature_iff_example :
    (verify_signature crates stripe "s3cret" body headers 400 ≡ ok tt)
    ↔ IsSigned crates tag stripe "s3cret" body headers 400
verify_signature_iff_example =
    verify_signature_iff crates tag crates-CratesLaws stripe "s3cret" body headers 400

-- The first second after the tolerance.
too_late : verify_signature crates stripe "s3cret" body headers 401 ≡ err invalid_signature
unfolding schemes verify_signature
too_late = refl

verify_signature_refuses_example : into_response invalid_signature ≡ into_response invalid_signature
verify_signature_refuses_example =
    verify_signature_refuses crates stripe "s3cret" body headers 401 invalid_signature too_late

-- The metadata service of a cloud.
abbrev metadata : Ipv4Addr
metadata = record { a = 169; b = 254; c = 169; d = 254 }

is_blocked_v4-eq-blocks_example : is_blocked_v4 metadata ≡ in_blocked_block (to_u32 metadata)
is_blocked_v4-eq-blocks_example =
    is_blocked_v4-eq-blocks metadata
      (record { a-lt = omega arith; b-lt = omega arith; c-lt = omega arith; d-lt = omega arith })
