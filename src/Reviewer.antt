-- ===== src/Reviewer.antt =====
-- workflows/reviewer_workflow: the check of a published restaurant for changes at its source.
pub mod Delta
pub mod State
pub mod Patch
pub mod Repositories
pub mod Nodes
pub mod Graph
pub mod Paths
