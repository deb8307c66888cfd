-- ===== src/Brokerage.antt =====
-- The brokerage application: backend/django/brokerage/.
pub mod Json
pub mod Models
pub mod Strategy
pub mod Cache
pub mod Orchestrator
pub mod Schemas
pub mod Links
pub mod Api
