-- ===== src/Runtime.antt =====
-- packages/runtime: the executor of a run.
pub mod History
pub mod Checkpoints
pub mod Tools
pub mod Repair
pub mod Batch
pub mod Events
pub mod Projection
pub mod Execution
pub mod Engine
pub mod Admission
pub mod Report
