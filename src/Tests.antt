-- ===== src/Tests.antt =====
-- Runs of the definitions on concrete data, and the theorems at them.
mod Rows
mod Models
mod Store
mod Ledger
mod Acquiring
mod Placement
mod Residency
mod Routes
mod Network
mod Controller
mod Queue
