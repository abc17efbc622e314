-- ===== src/Api/Auth/Laws.antt =====
-- What the API key gate lets through.
use aether_relay.Prelude.{
  ◌=?◌, or_iff, any, Any, String, ◌≡◌, refl, ◌↔◌, ◌⊎◌, inl, inr, true, some, List, [], ◌∷◌, arith,
  eq_iff,
}
use aether_relay.Error.{unauthorized, ok}
use aether_relay.Error.Try.{required_inv}
use aether_relay.Crypto.Headers.{HeaderMap, get, to_str}
use aether_relay.Api.Auth.{check_key, verify_api_key}

any_key_iff :
    (key : String) (keys : List String)
    → (any (λ k. k =? key) keys ≡ true) ↔ Any (λ k. k ≡ key) keys
any_key_iff key [] = ground arith
any_key_iff key (k ∷ keys) = or_iff _ _ (eq_iff k key) (any_key_iff key keys)

check_key_iff :
    (keys : List String) (key : String)
    → (check_key keys key ≡ ok tt) ↔ (any (λ k. k =? key) keys ≡ true)
check_key_iff keys key = ground arith

-- With no keys configured every request passes. Otherwise exactly the requests pass whose first
-- `X-Api-Key` header is the text of a configured key.
pub verify_api_key_iff :
    (headers : HeaderMap) (keys : List String)
    → (verify_api_key headers keys ≡ ok tt) ↔ (
        (keys ≡ [])
        ⊎ ((key : String) × (to_str (get "x-api-key" headers) ≡ some key)
            × Any (λ k. k ≡ key) keys))
unfolding verify_api_key
verify_api_key_iff headers [] = (λ _. inl refl, λ _. refl)
verify_api_key_iff headers (k ∷ keys) = (
  λ h.
      let (key, given, h1) =
        required_inv (unauthorized "Missing X-Api-Key header") (to_str (get "x-api-key" headers)) _
          h in
      inr (key, given, (any_key_iff key (k ∷ keys)).0 ((check_key_iff (k ∷ keys) key).0 h1)),
  λ h. elim h [
    | inl none_set ↦ cc
    | inr (key, given, listed) ↦
        rw given ((check_key_iff (k ∷ keys) key).1 ((any_key_iff key (k ∷ keys)).1 listed))
  ],
)
