-- ===== src/Quota.antt =====
-- The quota plans, their balances in Redis and the periodic reset (model/quota,
-- model/quotacache).
pub mod Cache
pub mod Plan
pub mod Sync
pub mod Manager
