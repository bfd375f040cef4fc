-- ===== src/Config.antt =====
-- internal/config: the declarations of `.masuda/settings.json` and the approvals of
-- `.masuda/settings.local.json`.
pub mod Names
pub mod Decl
pub mod Egress
pub mod Paths
pub mod Secrets
pub mod Validate
pub mod Hash
