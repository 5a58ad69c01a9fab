-- ===== src/Planning.antt =====
-- The planning layer (runtime/src/planning).
pub mod Config
pub mod Error
pub mod Executor
