-- ===== src/Recorder.antt =====
-- internal/services/recorder: which rooms are being recorded.
pub mod Admission
pub mod LowDisk
