-- ===== src/Migration.antt =====
-- packages/migration
pub mod Dependencies
pub mod Types
pub mod Action
pub mod Rules
pub mod Status
pub mod Dedupe
pub mod Ordering
pub mod Engine
mod Tests
