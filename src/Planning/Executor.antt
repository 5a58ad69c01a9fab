-- ===== src/Planning/Executor.antt =====
-- The plan executor: the ReAct loop with replanning (runtime/src/planning/executor.rs).
pub mod Task
pub mod Messages
pub mod Replan
pub mod React
pub mod Ends
pub mod Limits
pub mod Steps
pub mod Iterations
pub mod Results
pub mod Classes
pub mod Keeps
pub mod Trace
pub mod Sound
pub mod Backed
pub mod Accounts
pub mod Requests
pub mod Recalled
pub mod Deadline
pub mod Parallel
pub mod Sample
mod Scenarios
mod Tests
