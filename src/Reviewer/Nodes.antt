-- ===== src/Reviewer/Nodes.antt =====
-- The nodes of workflows/reviewer_workflow/nodes.
pub mod HashPolling
pub mod Reextraction
pub mod DeltaGeneration
pub mod FinalSync
pub mod DeltaValidation
pub mod Publish
