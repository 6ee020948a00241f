-- ===== src/Ds.antt =====
-- pkg/ds: the containers.
pub mod Set
pub mod Stack
