-- ===== src/Worker.antt =====
-- The worker package (internal/worker) and what it runs on.
pub mod Cache
pub mod Runtime
pub mod Examples
