-- ===== src/Crypto.antt =====
-- src/crypto: the providers' signature schemes. The hash and signature crates are parameters.
pub mod Headers
pub mod Crates
pub mod Schemes
pub mod Stripe
pub mod Signature
pub mod Genuine
pub mod Acceptance
pub mod Refusals
