-- ===== src/Ledger.antt =====
-- The ledger application: backend/django/ledger/.
pub mod Models
pub mod Price
pub mod Column
pub mod Trade
pub mod Cash
pub mod Overlap
pub mod Isolation
pub mod Orchestrator
pub mod Listing
pub mod Api
pub mod Invariant
pub mod History
