-- ===== src/Deployment.antt =====
-- packages/deployment
pub mod Models
pub mod Eligibility
pub mod Errors
pub mod Messages
pub mod Target
pub mod Checks
pub mod Policy
pub mod Proxy
mod Tests
