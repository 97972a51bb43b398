-- ===== src/Planner.antt =====
-- packages/planner: the collaboration state of a plan.
pub mod State
pub mod History
