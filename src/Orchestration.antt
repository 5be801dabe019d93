-- ===== src/Orchestration.antt =====
-- internal/capability/orchestration: the flow graph's edges and their conditions.
pub mod Flow
pub mod Schedule
pub mod Condition
pub mod Validation
pub mod Edges
pub mod Resolve
pub mod Routing
pub mod Engine
mod Tests
