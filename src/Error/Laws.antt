-- ===== src/Error/Laws.antt =====
-- The two ways in which src/error.rs classifies an error agree, and a server error tells nothing.
use aether_relay.Prelude.{◌≤◌, ◌≡◌, refl, arith}
use aether_relay.Error.{
  AppError, config, database, internal, status_code, generic_internal, into_response,
}

-- The status that metrics record for an error is the status of the response that the client gets,
-- for every error.
pub status_code-eq-status : (e : AppError) → status_code e ≡ (into_response e).status
unfolding status_code into_response
status_code-eq-status (config _) = refl
status_code-eq-status _ = refl

-- Whatever the error, a response with a status of 500 or more carries the one generic message, so
-- two errors that differ in their internal text alone give the same message.
pub into_response-hides_detail :
    (e : AppError) → 500 ≤ (into_response e).status → (into_response e).error ≡ generic_internal
unfolding into_response
into_response-hides_detail (config _) h = refl
into_response-hides_detail (database _) h = refl
into_response-hides_detail (internal _) h = refl
into_response-hides_detail _ h = absurd (omega arith)
