-- ===== src/Orchestrator/Laws.antt =====
-- Theorems on the pipelines.
pub mod Inversion
pub mod Approved
pub mod Closing
pub mod Untouched
pub mod Ended
pub mod Pipelines
