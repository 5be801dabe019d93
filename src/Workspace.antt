-- ===== src/Workspace.antt =====
-- internal/capability/workspace: the policy of automatic apply and the review receipts.
pub mod Policy
pub mod Receipt
mod Tests
