-- ===== src/Schedule.antt =====
-- modules/schedule: the scheduling engine.
pub mod Types
pub mod CapacityMap
pub mod OrderQueue
pub mod Attempt
pub mod Split
pub mod Block
pub mod Total
pub mod Strategy
pub mod Steps
pub mod Rollback
pub mod Placement
pub mod Levels
pub mod Overdraft
pub mod Keyed
pub mod Supply
pub mod Completeness
pub mod FirstFit
pub mod Fuel
pub mod Whole
mod Samples
