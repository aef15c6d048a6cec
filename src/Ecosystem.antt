-- ===== src/Ecosystem.antt =====
-- packages/ecosystem
pub mod Funnel
mod Tests
