-- ===== src/Tests.antt =====
-- Runs of the definitions at concrete inputs, and the theorems at inputs that meet their hypotheses.
mod MemoryRuns
mod Prices
mod ContextRuns
mod SprintRuns
mod TaskRuns
mod TeamRuns
mod IndexRuns
mod OutboxRuns
mod QueueRuns
mod PreviewRuns
