-- ===== src/Review.antt =====
-- The way of a restaurant to its publication: the rows it is kept in, the nodes of workflows/collector_workflow,
-- and the review service.
pub mod Rows
pub mod Repositories
pub mod Columns
pub mod Production
pub mod State
pub mod Nodes
pub mod Graph
pub mod Service
pub mod Publication
pub mod Replay
pub mod Decisions
pub mod Once
pub mod Collector
pub mod Threads
pub mod Rejection
pub mod Kept
