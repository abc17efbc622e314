-- ===== src/Api/Auth.antt =====
-- src/api/middleware/auth.rs: the gate that every handler but the health check passes.
pub mod Laws
use aether_relay.Prelude.{◌=?◌, if◌then◌else◌, any, String, List, [], ◌∷◌}
use aether_relay.Error.{unauthorized, Result, err, ok}
use aether_relay.Error.Try.{ok_or, ◌>>=◌}
use aether_relay.Crypto.Headers.{HeaderMap, get, to_str}

abbrev pub check_key : List String → String → Result (Unit {0})
check_key allowed_keys key =
    if any (λ k. k =? key) allowed_keys then ok tt else err (unauthorized "Invalid X-Api-Key")

unfoldable pub verify_api_key : HeaderMap → List String → Result (Unit {0})
verify_api_key headers [] = ok tt
verify_api_key headers (k ∷ ks) = do
  key ← ok_or (unauthorized "Missing X-Api-Key header") (to_str (get "x-api-key" headers))
  check_key (k ∷ ks) key
