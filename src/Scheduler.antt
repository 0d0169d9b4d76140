-- ===== src/Scheduler.antt =====
-- backend/internal/scheduler: what a model needs, where it fits, who gives way, and the ledger of
-- what has been promised.
pub mod Options
pub mod Errors
pub mod Demand
pub mod Placement
pub mod Capacity
pub mod Ledger
pub mod Eviction
pub mod Attribution
pub mod Runtime
