-- ===== src/KeyRotate.antt =====
-- The sweep that rewrites the sensitive columns under the active key (model/keyrotate, lib/xcrypto).
pub mod Envelope
pub mod Sweep
pub mod Task
