-- ===== src/Processors.antt =====
-- internal/processors: the steps of a recording pipeline.
pub mod SegmentDedup
pub mod HeaderSplit
pub mod BoxGuard
pub mod StreamWriter
