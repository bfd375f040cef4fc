-- ===== src/Serve.antt =====
-- serve: the resident process, its runs and the public API.
pub mod Advance
pub mod Reflect
pub mod Wake
pub mod Events
pub mod Feedback
pub mod Result
pub mod Gates
pub mod Questions
pub mod Activity
pub mod Privileged
pub mod Lifecycle
pub mod Disk
pub mod Resources
pub mod Tools
pub mod Approvals
