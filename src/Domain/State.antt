-- ===== src/Domain/State.antt =====
-- domain/state.py: the lifecycle and business enums, in three groups.
mod Cases
mod Lifecycle
mod Evidence
pub use Cases.*
pub use Lifecycle.*
pub use Evidence.*
