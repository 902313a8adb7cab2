-- ===== src/Team.antt =====
-- Which node may write a project, from team.py, authority_receipts.py and the authority routes of
-- main.py.
pub mod Authority
pub mod Requests
pub mod Handoff
pub mod Nodes
pub mod Inversion
pub mod Effects
pub mod Endings
pub mod Heads
pub mod Retiring
pub mod Taking
pub mod OneWriter
pub mod Completes
pub mod Encoding
pub mod Tokens
