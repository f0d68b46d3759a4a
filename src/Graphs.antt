-- ===== src/Graphs.antt =====
-- The graphs of lines: fleet_graph/graphs, less the development pipeline, which is in Dd.
pub mod Guards
