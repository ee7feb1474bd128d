-- ===== src/Analysis.antt =====
-- internal/analysis: what the engine makes of an event that a rule matched.
pub mod Stages
pub mod Sequence
pub mod Completed
pub mod Story
