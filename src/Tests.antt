-- ===== src/Tests.antt =====
-- The theorems at concrete inputs, and the code run on them.
mod Fixture
mod Breakers
mod Errors
mod Events
mod Worker
mod Requests
mod Handlers
mod Sequences
mod Listing
mod Boot
mod Serving
mod Draining
mod Settled
