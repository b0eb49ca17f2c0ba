-- ===== src/Domain.antt =====
-- internal/domain: the closed vocabulary of failure reasons, and their classes.
pub mod Reasons
pub mod Examples
