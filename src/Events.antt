-- ===== src/Events.antt =====
-- The events package: the log of every conversation, its replay and its live subscriptions.
pub mod Models
pub mod Copy
pub mod Store
pub mod Replay
pub mod Subscription
pub mod Log
pub mod Growth
pub mod Acceptance
pub mod Pages
pub mod Lookup
pub mod Delivery
mod Tests
