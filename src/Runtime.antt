-- ===== src/Runtime.antt =====
-- The execution of scenarios by the worker (apps/worker/src/automation).
pub mod Rows
pub mod Project
pub mod Merge
pub mod Condition
pub mod Effects
pub mod Suspend
pub mod Node
pub mod Run
pub mod Service
pub mod Again
pub mod Agree
pub mod Starved
pub mod Restart
pub mod Lifecycle
pub mod Settled
pub mod Preserved
pub mod Kept
pub mod Calls
pub mod Serve
pub mod Samples
pub mod Finished
mod Tests
