-- ===== src/Staging.antt =====
-- internal/staging: the bare repository that stands between the guest and the real one.
pub mod Commit
pub mod Publish
