-- ===== src/Query.antt =====
-- crates/neutra-core/src/query: the query language.
pub mod Types
pub mod Paths
pub mod Sizes
pub mod Filters
pub mod Parse
mod Examples
pub mod Tokens
