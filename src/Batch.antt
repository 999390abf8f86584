-- ===== src/Batch.antt =====
-- The batch tasks (model/ibatch).
pub mod Task
pub mod Store
pub mod Redis
pub mod Keys
pub mod Usage
pub mod World
pub mod Provider
pub mod Reserve
pub mod Settle
pub mod View
pub mod File
pub mod Advance
pub mod Cancel
pub mod Backfill
pub mod Reconcile
