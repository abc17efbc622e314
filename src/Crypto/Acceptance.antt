-- ===== src/Crypto/Acceptance.antt =====
-- What each scheme of src/crypto accepts, from the headers and the body of a request on.
use aether_relay.Prelude.{
  length, Any, ℕ, ◌+◌, ◌≤◌, String, ◌+++◌, ◌≡◌, refl, ◌↔◌, Bool, true, Option, some, ◌++◌, arith,
}
use aether_relay.Prelude.Str.{as_bytes, trim, strip_prefix}
use aether_relay.Crypto.Headers.{HeaderMap, get, to_str, or_else}
use aether_relay.Crypto.Signature.{
  Provider, github, stripe, midtrans, discord, generic, verify_signature,
}
use aether_relay.Crypto.Crates.{Crates, HmacIs}
use aether_relay.Models.{Bytes}
use aether_relay.Crypto.Stripe.{parse_header, signed_payload}
use aether_relay.Crypto.Genuine.{IsTagOf, accept_if_iff, verify_github_iff, verify_stripe_iff}
use aether_relay.Error.{invalid_signature, ok}
use aether_relay.Crypto.Schemes.{sized, verify_generic, verify_midtrans, verify_discord}
use aether_relay.Error.Try.{required_inv}

-- `new_from_slice` takes a key of any length, and `ct_eq` compares.
pub record CratesLaws (c : Crates) (tag : Bytes → Bytes → Bytes) : Type 0 where
  pub hmac : HmacIs c tag
  pub takes :
      (key : Bytes) → (accepts : Bytes → Bytes → Bool) × (c.new_from_slice key ≡ some accepts)
  pub compares : (a b : Bytes) → (c.ct_eq a b ≡ true) ↔ (a ≡ b)

module _ (c : Crates) (tag : Bytes → Bytes → Bytes) where
  abbrev pub GithubSigned : Bytes → Bytes → HeaderMap → Type 0
  GithubSigned secret body headers =
      (header : String) × (hex : String) × (to_str (get "x-hub-signature-256" headers)
        ≡ some header)
      × (strip_prefix "sha256=" header ≡ some hex)
      × IsTagOf c tag secret body hex

  abbrev pub StripeSigned : Bytes → Bytes → HeaderMap → ℕ → Type 0
  StripeSigned secret body headers now =
      (header : String) × (ts : ℕ) × (to_str (get "stripe-signature" headers) ≡ some header)
      × ((parse_header header).timestamp ≡ some ts)
      × (now ≤ ts + 300)
      × (ts ≤ now + 300)
      × Any (IsTagOf c tag secret (signed_payload ts body)) (parse_header header).signatures

  -- The code covers four members of the body and no other.
  abbrev pub MidtransSigned : String → Bytes → Type 0
  MidtransSigned server_key body =
      (member : String → Option String) × (order_id : String) × (status : String)
      × (amount : String) × (signature : String) × (c.from_slice body ≡ some member)
      × (member "order_id" ≡ some order_id)
      × (member "status_code" ≡ some status)
      × (member "gross_amount" ≡ some amount)
      × (member "signature_key" ≡ some signature)
      × (as_bytes (c.encode (c.sha512 (as_bytes (order_id +++ status +++ amount +++ server_key))))
          ≡ as_bytes signature)

  abbrev pub DiscordSigned : String → Bytes → HeaderMap → Type 0
  DiscordSigned public_key body headers =
      (header : String) × (ts : String) × (key : Bytes) × (signature : Bytes) × (accepts : Bytes
        → Bytes
        → Bool)
      × (to_str (get "x-signature-ed25519" headers) ≡ some header)
      × (to_str (get "x-signature-timestamp" headers) ≡ some ts)
      × (c.decode public_key ≡ some key)
      × (c.decode header ≡ some signature)
      × (length key ≡ 32)
      × (length signature ≡ 64)
      × (c.from_bytes key ≡ some accepts)
      × (accepts (as_bytes ts ++ body) signature ≡ true)

  abbrev pub GenericSigned : Bytes → Bytes → HeaderMap → Type 0
  GenericSigned secret body headers =
      (header : String) × (to_str (or_else (get "x-signature" headers) (get "signature" headers))
        ≡ some header)
      × IsTagOf c tag secret body (trim header)

  -- The request is signed as the provider signs.
  abbrev pub IsSigned : Provider → String → Bytes → HeaderMap → ℕ → Type 0
  IsSigned github secret body headers now = GithubSigned (as_bytes secret) body headers
  IsSigned stripe secret body headers now = StripeSigned (as_bytes secret) body headers now
  IsSigned midtrans secret body headers now = MidtransSigned secret body
  IsSigned discord secret body headers now = DiscordSigned secret body headers
  IsSigned generic secret body headers now = GenericSigned (as_bytes secret) body headers

sized_inv : (n : ℕ) (b a : Bytes) → sized n b ≡ some a → (length b ≡ n) × (a ≡ b)
sized_inv n b a h = (ground arith, ground arith)

sized_of : (n : ℕ) (b : Bytes) → length b ≡ n → sized n b ≡ some b
sized_of n b h = ground arith

module _ (c : Crates) (tag : Bytes → Bytes → Bytes) (laws : CratesLaws c tag) where
  generic_iff :
      (secret body : Bytes) (header : String)
      → (verify_generic c secret body header ≡ ok tt) ↔ IsTagOf c tag secret body (trim header)
  unfolding verify_generic
  generic_iff secret body header =
      let (accepts, usable) = laws.takes secret in
      (
        λ h.
            let (expected, decoded, h1) =
              required_inv invalid_signature (c.decode (trim header)) _ h in
            let (accepts', usable', h2) =
              required_inv invalid_signature (c.new_from_slice secret) _ h1 in
            cc (
              decoded,
              (laws.hmac secret accepts' usable' body expected).0 ((accept_if_iff _).0 h2),
            ),
        λ decoded.
            rw (decoded, usable, (laws.hmac secret accepts usable body (tag secret body)).1 refl)
              refl,
      )

  midtrans_iff :
      (server_key : String) (body : Bytes)
      → (verify_midtrans c server_key body ≡ ok tt) ↔ MidtransSigned c tag server_key body
  unfolding verify_midtrans
  midtrans_iff server_key body = (
    λ h.
        let (member, parsed, h1) = required_inv invalid_signature (c.from_slice body) _ h in
        let (order_id, m1, h2) = required_inv invalid_signature (member "order_id") _ h1 in
        let (status, m2, h3) = required_inv invalid_signature (member "status_code") _ h2 in
        let (amount, m3, h4) = required_inv invalid_signature (member "gross_amount") _ h3 in
        let (signature, m4, h5) = required_inv invalid_signature (member "signature_key") _ h4 in
        (
          member,
          order_id,
          status,
          amount,
          signature,
          parsed,
          m1,
          m2,
          m3,
          m4,
          (laws.compares _ _).0 ((accept_if_iff _).0 h5),
        ),
    λ (member, order_id, status, amount, signature, parsed, m1, m2, m3, m4, same).
        rw (parsed, m1, m2, m3, m4) ((accept_if_iff _).1 ((laws.compares _ _).1 same)),
  )

  discord_iff :
      (public_key : String) (body : Bytes) (header ts : String)
      → (verify_discord c public_key body header ts ≡ ok tt) ↔ (
          (key : Bytes) × (signature : Bytes) × (accepts : Bytes → Bytes → Bool) × (c.decode
              public_key
            ≡ some key)
          × (c.decode header ≡ some signature)
          × (length key ≡ 32)
          × (length signature ≡ 64)
          × (c.from_bytes key ≡ some accepts)
          × (accepts (as_bytes ts ++ body) signature ≡ true))
  unfolding verify_discord
  discord_iff public_key body header ts = (
    λ h.
        let (key, k, h1) = required_inv invalid_signature (c.decode public_key) _ h in
        let (signature, s, h2) = required_inv invalid_signature (c.decode header) _ h1 in
        let (key', sk, h3) = required_inv invalid_signature (sized 32 key) _ h2 in
        let (signature', ss, h4) = required_inv invalid_signature (sized 64 signature) _ h3 in
        let (accepts, usable, h5) = required_inv invalid_signature (c.from_bytes key') _ h4 in
        let (long, same) = sized_inv 32 key key' sk in
        let (long', same') = sized_inv 64 signature signature' ss in
        (
          key,
          signature,
          accepts,
          k,
          s,
          long,
          long',
          rw same at usable,
          rw same' at ((accept_if_iff _).0 h5),
        ),
    λ (key, signature, accepts, k, s, long, long', usable, good).
        rw (k, s, sized_of 32 key long, sized_of 64 signature long', usable)
          ((accept_if_iff _).1 good),
  )

  -- Whatever the provider: a request passes the signature check exactly when it is signed as that provider
  -- signs. For GitHub, generic and Stripe that is the code of the body, or of a recent time and the body, under
  -- the stored secret; for Midtrans the digest of four members of the body and the server key; for Discord a
  -- signature of the time and the body that the stored public key accepts. The crates obey their laws:
  -- `verify_slice` accepts exactly the code, keys of any length are taken, and `ct_eq` compares.
  pub verify_signature_iff :
      (provider : Provider) (secret : String) (body : Bytes) (headers : HeaderMap) (now : ℕ)
      → (verify_signature c provider secret body headers now ≡ ok tt)
        ↔ IsSigned c tag provider secret body headers now
  unfolding verify_signature
  verify_signature_iff github secret body headers now =
      let (accepts, usable) = laws.takes (as_bytes secret) in
      let passes = verify_github_iff c tag laws.hmac (as_bytes secret) accepts usable body in
      (
        λ h.
            let (header, sent, h1) =
              required_inv invalid_signature (to_str (get "x-hub-signature-256" headers)) _ h in
            let (hex, found, fits) = (passes header).0 h1 in (header, hex, sent, found, fits),
        λ (header, hex, sent, found, fits). rw sent ((passes header).1 (hex, found, fits)),
      )
  verify_signature_iff stripe secret body headers now =
      let (accepts, usable) = laws.takes (as_bytes secret) in
      let passes = λ (header : String).
        verify_stripe_iff c tag laws.hmac (as_bytes secret) accepts usable body header now in
      (
        λ h.
            let (header, sent, h1) =
              required_inv invalid_signature (to_str (get "stripe-signature" headers)) _ h in
            let (ts, timed, low, high, fits) = (passes header).0 h1 in
            (header, ts, sent, timed, low, high, fits),
        λ (header, ts, sent, timed, low, high, fits).
            rw sent ((passes header).1 (ts, timed, low, high, fits)),
      )
  verify_signature_iff midtrans secret body headers now = midtrans_iff secret body
  verify_signature_iff discord secret body headers now = (
    λ h.
        let (header, sent, h1) =
          required_inv invalid_signature (to_str (get "x-signature-ed25519" headers)) _ h in
        let (ts, timed, h2) =
          required_inv invalid_signature (to_str (get "x-signature-timestamp" headers)) _ h1 in
        let (key, signature, accepts, k, s, long, long', usable, good) =
          (discord_iff secret body header ts).0 h2 in
        (header, ts, key, signature, accepts, sent, timed, k, s, long, long', usable, good),
    λ (header, ts, key, signature, accepts, sent, timed, k, s, long, long', usable, good).
        rw (sent, timed)
          ((discord_iff secret body header ts).1
            (key, signature, accepts, k, s, long, long', usable, good)),
  )
  verify_signature_iff generic secret body headers now = (
    λ h.
        let (header, sent, h1) =
          required_inv invalid_signature
            (to_str (or_else (get "x-signature" headers) (get "signature" headers))) _ h in
        (header, sent, (generic_iff (as_bytes secret) body header).0 h1),
    λ (header, sent, fits). rw sent ((generic_iff (as_bytes secret) body header).1 fits),
  )
