-- ===== src/Index.antt =====
-- The search projection of the tasks, from task_index.py, and the queue of events that feeds it, from
-- outbox.py.
pub mod Bytes
pub mod Labels
pub mod Document
pub mod Slices
pub mod Cuts
pub mod Allotted
pub mod Payload
pub mod Projection
pub mod Current
pub mod Reindexed
pub mod Events
pub mod Outbox
pub mod Attempts
pub mod Drained
pub mod Emptied
pub mod Projected
pub mod Delivered
pub mod Converged
pub mod Caught
