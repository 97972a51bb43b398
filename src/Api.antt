-- ===== src/Api.antt =====
-- packages/api: the contracts that the other packages share.
pub mod Error
pub mod Artifact
pub mod Content
pub mod Message
pub mod Serializer
pub mod ToolResults
pub mod Validation
pub mod Task
pub mod Options
pub mod Checkpoint
pub mod Limits
pub mod Event
