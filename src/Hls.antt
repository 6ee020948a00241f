-- ===== src/Hls.antt =====
-- pkg/hls: reading an HLS stream.
pub mod InitSettle
pub mod TsContinuity
pub mod Boxes
pub mod Fragment
pub mod StreamLoop
pub mod PlaylistSession
