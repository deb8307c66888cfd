-- ===== src/Tests.antt =====
-- Concrete data, runs of the code on it, and the theorems at concrete inputs.
pub mod Numeric
pub mod Fixtures
pub mod Trades
pub mod Endpoints
pub mod Accounts
pub mod Login
pub mod Whole
pub mod Realtime
pub mod Brokerage
pub mod Overlap
pub mod Extensions
