-- ===== src/Samples.antt =====
-- Concrete inputs on which the theorems are applied.
mod Privileged
mod Serve
mod Activity
mod Advance
mod Records
mod Runner
mod Commit
mod Publish
mod Lifecycle
mod Tools
mod Jobs
mod Approvals
