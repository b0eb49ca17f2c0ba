-- ===== src/Mcp.antt =====
-- internal/mcp: the pages of evidence that a client reads one after the other.
pub mod Page
pub mod Build
pub mod Store
pub mod Documents
pub mod Fetch
pub mod Examples
