-- ===== src/Delta.antt =====
-- crates/neutra-core/src/delta: the write-ahead log of changes over a compact index.
pub mod Record
pub mod Wal
