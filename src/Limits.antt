-- ===== src/Limits.antt =====
-- internal/limits: the bound on the work that burns the processor.
pub mod Cpu
