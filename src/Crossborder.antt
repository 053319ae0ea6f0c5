-- ===== src/Crossborder.antt =====
-- projects/crossborder: the simulated order, stock and settlement system that the agent operates.
pub mod Domain
pub mod Decimal
pub mod State
pub mod Seeded
pub mod Keys
pub mod Queries
pub mod Transfer
pub mod Warehouse
pub mod Refund
pub mod Reconciliation
pub mod History
