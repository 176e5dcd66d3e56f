-- ===== src/Domain/Models.antt =====
-- domain/models.py: the validated snapshots. A snapshot's `validate` is what pydantic runs when it
-- is built: the field constraints, and then the model validator.
mod Case
mod Action
mod Triage
unfoldable pub use Case.*
unfoldable pub use Action.*
unfoldable pub use Triage.*
