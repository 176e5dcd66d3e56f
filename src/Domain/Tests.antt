-- ===== src/Domain/Tests.antt =====
-- Concrete cases, runs, proposals and actions, on which the domain's theorems are applied.
mod Cases
mod Actions
mod Outcomes
mod Ledgers
