-- ===== src/Nodes.antt =====
-- The nodes of the network as the core server keeps them: internal/domain, the repositories under
-- internal/repository, and the services under internal/service.
pub mod Types
pub mod Redis
pub mod Manager
pub mod Relays
pub mod Database
pub mod Service
pub mod Moderation
mod Tests
