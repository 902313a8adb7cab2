-- ===== src/Work.antt =====
-- Tasks, epics and sprints: backend/dduo_solo_founder/sprint_work.py and the task part of
-- service.py over one database.
pub mod Store
pub mod Sprints
pub mod Tasks
pub mod Consistency
pub mod Later
pub mod Writes
pub mod UniqueTasks
pub mod Previewed
