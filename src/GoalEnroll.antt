-- ===== src/GoalEnroll.antt =====
-- Goal enrollment: fleet_graph/goal_enroll.
pub mod Queue
