-- ===== src/Examples.antt =====
-- The theorems at concrete runs of the program.
mod Runs
mod Provider
mod Delegations
mod Assembler
mod Plan
mod Cron
mod Context
mod Turn
mod Safety
