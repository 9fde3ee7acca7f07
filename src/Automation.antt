-- ===== src/Automation.antt =====
-- packages/automation-core: scenario graphs, their validation, conditions and simulation.
pub mod Graph
pub mod Condition
pub mod Field
pub mod Reply
pub mod Reach
pub mod Cycle
pub mod HttpConfig
pub mod Issue
pub mod Outgoing
pub mod NodeChecks
pub mod Validate
pub mod Branch
pub mod Simulate
pub mod Samples
mod Tests
