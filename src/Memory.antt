-- ===== src/Memory.antt =====
-- The memory layer (runtime/src/memory).
pub mod ShortTerm
pub mod EpisodicLog
pub mod LongTerm
