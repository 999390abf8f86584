-- ===== src/Provider.antt =====
-- A provider of models, its validation, its pricing tiers and its manager
-- (model/iprovider/provider.go).
pub mod Hhmm
pub mod Tiers
pub mod Types
pub mod Text
pub mod Param
pub mod Rows
pub mod Snapshot
pub mod Manager
pub mod Listing
