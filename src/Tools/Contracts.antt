-- ===== src/Tools/Contracts.antt =====
-- tools/contracts.py: the typed payloads and the envelope of one read result.
mod Orders
mod Reports
mod Policy
mod Tickets
mod Results
unfoldable pub use Orders.*
unfoldable pub use Reports.*
unfoldable pub use Policy.*
unfoldable pub use Tickets.*
unfoldable pub use Results.*
