-- ===== src/Source.antt =====
-- internal/source: the original files of a workspace.
pub mod Resolver
pub mod Replay
pub mod Checked
pub mod Returns
pub mod Verified
pub mod Examples
