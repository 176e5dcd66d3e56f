-- ===== src/Policy.antt =====
-- The policy package: order authorization, and the router between triage and case creation.
pub mod Authorization
pub mod Router
pub mod Gate
mod Tests
