-- ===== src/Compatibility.antt =====
-- packages/compatibility
pub mod Types
pub mod Readiness
pub mod Scoring
pub mod Engine
mod Tests
