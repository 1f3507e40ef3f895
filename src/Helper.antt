-- ===== src/Helper.antt =====
-- crates/neutra-helper/src: the helper that watches file systems and writes the index.
pub mod Gate
pub mod Pending
