-- ===== src/Scheduler.antt =====
-- The scheduler's decisions: fleet_graph/scheduler.
pub mod Ignition
pub mod Stall
pub mod Revive
pub mod Parking
pub mod Waking
pub mod Reading
pub mod Tick
pub mod Streaks
pub mod Settling
pub mod Once
pub mod GoalEdits
pub mod Revoking
pub mod Revocations
pub mod DoneLine
pub mod Wasted
