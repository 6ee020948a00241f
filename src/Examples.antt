-- ===== src/Examples.antt =====
-- Runs of the components at concrete inputs, one file for each part.
pub mod Streams
pub mod Sessions
pub mod Messages
pub mod Services
pub mod Segments
pub mod Files
pub mod Polling
pub mod Checks
