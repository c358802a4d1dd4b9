-- ===== src/Queue.antt =====
-- The queue of manual ingestions: its table, and the jobs that work it off one at a time.
pub mod Items
pub mod Batches
pub mod Changes
pub mod Dispatcher
