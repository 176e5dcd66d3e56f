-- ===== src/Policy/Gate.antt =====
-- policy/evidence_gate.py: the truth tables by which evidence decides a case.
pub mod Facts
pub mod Guards
pub mod Signed
pub mod Stalled
pub mod Clear
pub mod Governed
pub mod SignedReady
pub mod SignedProposal
pub mod StalledReady
pub mod StalledProposal
pub mod Outcomes
