-- ===== src/Validation.antt =====
-- packages/validation
pub mod Compare
mod Tests
