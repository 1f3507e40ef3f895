-- ===== src/Search.antt =====
-- crates/neutra-core/src: matching, ranking and the lists that a search returns.
pub mod Compare
pub mod Top
pub mod Find
pub mod Score
pub mod Leaders
pub mod Index
mod Examples
