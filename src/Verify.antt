-- ===== src/Verify.antt =====
-- internal/capability/verify: which commands may run for a mission, and how a batch of them runs.
pub mod Tail
pub mod Paths
pub mod Runner
pub mod Allowlist
pub mod Commands
mod Tests
