-- ===== src/Compact.antt =====
-- crates/neutra-core/src/compact and compact_merge: the compact index.
pub mod Codec
pub mod Postings
pub mod Dictionary
pub mod Candidates
