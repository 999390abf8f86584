-- ===== src/Epp.antt =====
-- The pool of EPP instances and the assignment of clusters to it (model/epp_pool).
pub mod Names
pub mod Pool
pub mod Assign
pub mod Config
pub mod Compile
