-- ===== src/Domain/CaseFacts.antt =====
-- domain/case_facts.py: the ledger of what a customer has said about a case.
pub mod Codes
pub mod Records
pub mod Reply
pub mod Entries
pub mod Rebuild
pub mod Disputes
pub mod Tracking
pub mod Current
pub mod Known
pub mod Questions
pub mod Accepted
pub mod Retractions
