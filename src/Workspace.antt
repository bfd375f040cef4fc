-- ===== src/Workspace.antt =====
-- internal/workspace: what is kept for a workspace on the host.
pub mod Records
pub mod Questions
pub mod Comments
