-- ===== src/Policy/Tests.antt =====
-- Concrete messages, orders and evidence, on which the policy's theorems are applied.
mod Routes
mod Evidence
mod Proposals
