-- ===== src/Crypto/Signature.antt =====
-- src/crypto/mod.rs: the provider of a name and the choice of its scheme.
use aether_relay.Prelude.{◌=?◌, if◌then◌else◌, ℕ, String, none}
use aether_relay.Prelude.Str.{as_bytes, to_lowercase}
use aether_relay.Models.{Bytes}
use aether_relay.Error.{unsupported_provider, Result, err, ok}
use aether_relay.Error.Try.{◌>>=◌}
use aether_relay.Crypto.Headers.{HeaderMap, get, to_str, or_else}
use aether_relay.Crypto.Crates.{Crates}
use aether_relay.Crypto.Schemes.{
  required, verify_github, verify_generic, verify_midtrans, verify_discord,
}
use aether_relay.Crypto.Stripe.{verify_stripe}

pub data Provider : Type 0 where
  github stripe midtrans discord generic : Provider

abbrev named : String → Result Provider
named s =
    if s =? "github"
    then ok github
    else if s =? "stripe"
    then ok stripe
    else if s =? "midtrans"
    then ok midtrans
    else if s =? "discord"
    then ok discord
    else if s =? "generic"
    then ok generic
    else err (unsupported_provider s)

unfoldable pub provider_from_str : String → Result Provider
provider_from_str s = named (to_lowercase s)

module _ (c : Crates) where
  -- `now` is the reading of the clock that the Stripe scheme makes.
  unfoldable pub verify_signature : Provider → String → Bytes → HeaderMap → ℕ → Result (Unit {0})
  verify_signature github secret body headers now = do
    sig ← required (to_str (get "x-hub-signature-256" headers))
    verify_github c (as_bytes secret) body sig
  verify_signature stripe secret body headers now = do
    sig ← required (to_str (get "stripe-signature" headers))
    verify_stripe c (as_bytes secret) body sig none now
  verify_signature midtrans secret body headers now = verify_midtrans c secret body
  verify_signature discord secret body headers now = do
    sig ← required (to_str (get "x-signature-ed25519" headers))
    ts ← required (to_str (get "x-signature-timestamp" headers))
    verify_discord c secret body sig ts
  verify_signature generic secret body headers now = do
    sig ← required (to_str (or_else (get "x-signature" headers) (get "signature" headers)))
    verify_generic c (as_bytes secret) body sig
