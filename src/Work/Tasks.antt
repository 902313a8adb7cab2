-- ===== src/Work/Tasks.antt =====
-- The task part of backend/dduo_solo_founder/service.py: one action on one task.
pub mod Values
pub mod Checks
pub mod Action
pub mod Placed
pub mod Opened
pub mod Keeps
pub mod Recorded
