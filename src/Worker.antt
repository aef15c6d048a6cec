-- ===== src/Worker.antt =====
-- apps/worker
pub mod Externals
pub mod Common
pub mod Confirm
pub mod Prepare
pub mod Broadcast
pub mod Service
pub mod Audit
mod Tests
