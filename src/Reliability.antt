-- ===== src/Reliability.antt =====
-- The reliability layer (runtime/src/reliability).
pub mod CircuitBreaker
pub mod LoopDetector
pub mod Timeout
