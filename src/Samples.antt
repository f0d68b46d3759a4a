-- ===== src/Samples.antt =====
-- Concrete runs of the models, and the theorems at concrete inputs.
mod Walks
mod Stages
mod Machine
mod Network
mod Lines
mod Decisions
mod Questions
mod Rounds
mod Ticks
mod Releases
mod Enrollments
