-- ===== src/Tx.antt =====
-- pkg/tx: reservations of keys as transactions.
pub mod Pending
pub mod Hook
