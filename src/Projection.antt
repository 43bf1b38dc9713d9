-- ===== src/Projection.antt =====
-- packages/projection-lifecycle: how a projection takes in what a session appends.
pub mod Wal
pub mod Stream
