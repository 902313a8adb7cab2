-- ===== src/Work/Sprints.antt =====
-- backend/dduo_solo_founder/sprint_work.py: the sprint lifecycle, one transaction per operation.
pub mod Rows
pub mod Mutate
mod Opened
pub mod Changed
mod Closing
pub mod Keeps
pub mod WorkKept
pub mod Replay
pub mod Preview
pub mod Announced
pub mod Placements
