-- ===== src/Memory.antt =====
-- backend/dduo_solo_founder/memory_engine.py: the memories that the sleep job writes, and their
-- revisions.
pub mod Keys
pub mod Store
pub mod Targets
pub mod Sleep
pub mod Chain
pub mod Found
pub mod Kept
pub mod Change
pub mod History
pub mod Forgetting
pub mod StableKeys
