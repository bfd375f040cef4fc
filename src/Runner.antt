-- ===== src/Runner.antt =====
-- The runner: what the engine asks of the host.
pub mod Policy
pub mod Store
pub mod Data
pub mod Findings
