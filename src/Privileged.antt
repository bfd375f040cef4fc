-- ===== src/Privileged.antt =====
-- internal/privileged: which privileged commands may run, and what a run hands back.
pub mod Glob
pub mod Tail
pub mod Approval
pub mod Shell
pub mod Job
