-- ===== src/Flv.antt =====
-- pkg/flv: FLV tags, their repair while a stream is recorded, and the watch on sequence headers.
pub mod VideoTag
pub mod Tag
pub mod Timestamps
pub mod Dedup
pub mod Realtime
pub mod Detector
pub mod Accumulate
