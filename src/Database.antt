-- ===== src/Database.antt =====
-- packages/db
pub mod Models
pub mod Deployments
pub mod Transactions
mod Tests
