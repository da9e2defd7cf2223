-- ===== src/Tasks/Store.antt =====
-- The in-memory task store (vyuh/src/tasks/store).
pub mod Queries
pub mod Lifecycle
pub mod State
pub mod Commit
pub mod Submit
pub mod Claim
pub mod Reserve
pub mod LaneOwner
pub mod LanePhase
pub mod LaneTurn
pub mod Stage
pub mod Finish
pub mod Deliver
pub mod Nodes
pub mod Schedule
pub mod Workflow
pub mod Operations
pub mod Recovery
