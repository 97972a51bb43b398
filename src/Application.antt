-- ===== src/Application.antt =====
-- packages/application/src: the runs that a host keeps for its clients.
pub mod Protocol
pub mod Entries
pub mod Subscriptions
pub mod Histories
pub mod Positions
pub mod Collector
pub mod Clients
pub mod Frames
pub mod Following
pub mod JournalEnds
pub mod CatchUp
pub mod Journals
pub mod Registry
mod Tests
