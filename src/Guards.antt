-- ===== src/Guards.antt =====
-- The two guards between processes, each a table of at most one row.
pub mod LazySync
pub mod Evaluation
