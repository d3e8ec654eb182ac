-- ===== src/Orchestrator.antt =====
-- internal/orchestrator
pub mod Refs
pub mod Parallel
pub mod Names
