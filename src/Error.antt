-- ===== src/Error.antt =====
-- src/error.rs: the application's errors and the responses that they become.
pub mod Laws
pub mod Try
use aether_relay.Prelude.{ℕ, String, ◌+++◌}

-- The third-party `config::ConfigError` enters by its text.
pub data AppError : Type 0 where
  config unauthorized : String → AppError
  invalid_signature payload_too_large : AppError
  bad_request unsupported_provider duplicate_idempotency_key : String → AppError
  conflict database not_found internal : String → AppError

pub data Result {ℓ} (A : Type ℓ) : Type ℓ where
  err : AppError → Result A
  ok : A → Result A

unfoldable pub status_code : AppError → ℕ
status_code (config _) = 500
status_code (database _) = 500
status_code (internal _) = 500
status_code (unauthorized _) = 401
status_code invalid_signature = 401
status_code payload_too_large = 413
status_code (bad_request _) = 400
status_code (unsupported_provider _) = 400
status_code (duplicate_idempotency_key _) = 409
status_code (conflict _) = 409
status_code (not_found _) = 404

abbrev pub generic_internal : String
generic_internal = "Internal server error"

-- An HTTP response with the two members of its JSON body.
pub record ErrorResponse : Type 0 where
  pub status : ℕ
  pub code : String
  pub error : String

abbrev respond : ℕ → String → String → ErrorResponse
respond status code error = record { status = status; code = code; error = error }

unfoldable pub into_response : AppError → ErrorResponse
into_response (config e) = respond 500 "CONFIG_ERROR" generic_internal
into_response (unauthorized msg) = respond 401 "UNAUTHORIZED" msg
into_response invalid_signature =
    respond 401 "INVALID_SIGNATURE" "Cryptographic signature mismatch or expired"
into_response payload_too_large =
    respond 413 "PAYLOAD_TOO_LARGE" "Request body exceeds maximum allowed size"
into_response (bad_request msg) = respond 400 "BAD_REQUEST" msg
into_response (unsupported_provider p) =
    respond 400 "UNSUPPORTED_PROVIDER" ("Unsupported provider: " +++ p)
into_response (duplicate_idempotency_key st) =
    respond 409 "IDEMPOTENCY_CONFLICT" ("Event with key already exists in state: " +++ st)
into_response (database e) = respond 500 "DATABASE_ERROR" generic_internal
into_response (not_found msg) = respond 404 "NOT_FOUND" msg
into_response (conflict msg) = respond 409 "CONFLICT" msg
into_response (internal e) = respond 500 "INTERNAL_ERROR" generic_internal
