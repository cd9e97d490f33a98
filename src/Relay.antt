-- ===== src/Relay.antt =====
-- The relay (pkg/relay): sessions, channels and the forwarding of envelopes.
pub mod Types
pub mod Sessions
pub mod Forward
pub mod Invariant
pub mod Delivery
pub mod Routing
pub mod History
pub mod Lifecycle
pub mod Server
pub mod Stream
pub mod Writer
mod Tests
