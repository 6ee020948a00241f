-- ===== src/Danmaku.antt =====
-- internal/services/danmaku.
pub mod GiftPb
