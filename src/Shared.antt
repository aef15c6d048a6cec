-- ===== src/Shared.antt =====
-- packages/shared
pub mod Json
pub mod Enums
