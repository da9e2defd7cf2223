-- ===== src/Tasks.antt =====
-- The task runtime (vyuh/src/tasks): durable tasks, their lifecycle and their stores.
pub mod Types
pub mod Externals
pub mod Retry
pub mod Rate
pub mod Result
pub mod Store
