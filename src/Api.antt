-- ===== src/Api.antt =====
-- src/api: the handlers. A request is its path parameters, its headers and its body; routing and the
-- extraction of bodies are axum's.
pub mod Auth
pub mod Ingest
pub mod Dlq
pub mod Target
pub mod Endpoints
pub mod Steps
pub mod Gate
pub mod Refusal
pub mod Replay
pub mod Listing
pub mod Management
pub mod Health
pub mod Http
pub mod Metrics
pub mod Router
