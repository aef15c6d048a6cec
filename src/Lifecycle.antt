-- ===== src/Lifecycle.antt =====
-- packages/shared: the state machines of the runs.
pub mod Paths
pub mod Job
pub mod Deployment
pub mod ChangeSet
pub mod Validation
pub mod Analysis
pub mod Compatibility
pub mod Plan
mod Tests
