-- ===== src/Crypto/Crates.antt =====
-- What src/crypto takes from the crates hex, hmac, sha2, subtle, serde_json and ed25519-dalek.
use aether_relay.Prelude.{String, ◌≡◌, ◌↔◌, Bool, true, Option, some}
use aether_relay.Models.{Bytes}

pub record Crates : Type 0 where
  -- `hex::decode` and `hex::encode`
  pub decode : String → Option Bytes
  pub encode : Bytes → String
  -- `HmacSha256::new_from_slice`: of a key, whether `verify_slice` accepts a message and a tag.
  pub new_from_slice : Bytes → Option (Bytes → Bytes → Bool)
  -- `Sha512::new`, `update` and `finalize`
  pub sha512 : Bytes → Bytes
  -- `subtle::ConstantTimeEq::ct_eq`
  pub ct_eq : Bytes → Bytes → Bool
  -- `serde_json::from_slice`: of a JSON text, the members that are strings.
  pub from_slice : Bytes → Option (String → Option String)
  -- `VerifyingKey::from_bytes`: of a key, whether `verify_strict` accepts a message and a signature.
  pub from_bytes : Bytes → Option (Bytes → Bytes → Bool)

-- `verify_slice` accepts exactly the tag that `tag` computes from the key and the message.
abbrev pub HmacIs : Crates → (Bytes → Bytes → Bytes) → Type 0
HmacIs c tag =
    (key : Bytes) (accepts : Bytes → Bytes → Bool)
    → c.new_from_slice key ≡ some accepts
    → (message mac : Bytes) → (accepts message mac ≡ true) ↔ (mac ≡ tag key message)
