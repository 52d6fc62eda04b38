-- ===== src/Execution.antt =====
-- The execution layer: src/hedp/operations.
pub mod Shadow
