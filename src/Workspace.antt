-- ===== src/Workspace.antt =====
-- internal/workspace: which staged files a workspace takes for documents.
pub mod Ignore
