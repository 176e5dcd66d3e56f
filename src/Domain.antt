-- ===== src/Domain.antt =====
-- The domain package: enums, snapshots with their validators, the lifecycle transitions and the
-- customer outcomes.
pub mod State
pub mod Models
pub mod Transitions
pub mod Dispositions
pub mod CaseFacts
mod Tests
