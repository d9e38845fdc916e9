-- ===== src/Graph.antt =====
-- The commit DAG: core/repository_support.py, lines 23 to 145.
pub mod Generation
pub mod Ancestor
pub mod MergeBase
