-- ===== src/ModelControl.antt =====
-- internal/modelcontrol: deterministic routing, budgets and resilience of host profiles.
pub mod Complexity
pub mod Dial
pub mod Cost
pub mod Breaker
pub mod Escalation
pub mod Profile
mod Tests
