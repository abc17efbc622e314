-- ===== src/Api/Http.antt =====
-- The responses of src/api: a status and what the body says, before it is printed as JSON.
use aether_relay.Prelude.{ℕ, String, List}
use aether_relay.Error.{Result, err, ok, ErrorResponse, into_response}
use aether_relay.Models.{DeadLetterRow}
use aether_relay.Api.Ingest.{Response, accepted, refused}
use aether_relay.Api.Dlq.{Replayed}
use aether_relay.Api.Endpoints.{EndpointResponse}
use aether_relay.Api.Health.{HealthStatus}

pub data Body : Type 0 where
  nothing : Body
  text : String → Body
  failure : (code error : String) → Body
  health : HealthStatus → Body
  event : (id status : String) → Body
  created : EndpointResponse → Body
  endpoints : List EndpointResponse → Body
  dead_letters : List DeadLetterRow → Body
  replayed : Replayed → Body

pub record HttpResponse : Type 0 where
  pub status : ℕ
  pub body : Body

abbrev pub of_error : ErrorResponse → HttpResponse
of_error x = record { status = x.status; body = failure x.code x.error }

-- `Result<impl IntoResponse, AppError>`, with the status of a success.
abbrev pub of_result : {A : Type 0} → ℕ → (A → Body) → Result A → HttpResponse
of_result status body (ok a) = record { status = status; body = body a }
of_result status body (err e) = of_error (into_response e)

-- The last statements of `handle_ingest`.
abbrev pub of_ingest : Response → HttpResponse
of_ingest (accepted event_id) = record { status = 202; body = event event_id "RECEIVED" }
of_ingest (refused x) = of_error x
