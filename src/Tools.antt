-- ===== src/Tools.antt =====
-- The tools package: read-tool contracts, budget and cache.
pub mod EvidenceRef
pub mod Contracts
pub mod ResultLaws
pub mod Budget
pub mod Cache
pub mod Executor
mod Tests
