-- ===== src/Schema.antt =====
-- Package internal/schema.
pub mod AllOf
pub mod Cleanup
pub mod Types
