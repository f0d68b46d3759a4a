-- ===== src/Dd.antt =====
-- dev-dispatch: the stage machine, the egress layer and the pipeline (fleet_graph/dd and
-- fleet_graph/graphs/dd_pipeline.py).
pub mod Lifecycle
pub mod Egress
pub mod Pipeline
