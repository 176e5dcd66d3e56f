-- ===== src/Tools/Tests.antt =====
-- Concrete budgets and cached reads, on which the theorems of the tools are applied.
mod Budgets
mod Reads
mod Executions
