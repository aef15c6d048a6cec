-- ===== src/Auth.antt =====
-- packages/auth
pub mod Policy
mod Tests
