-- ===== src/DetectionState.antt =====
-- internal/detectionstate: what a rule remembers between events, and the bounds of it.
pub mod Bounds
pub mod Observation
pub mod Window
pub mod Key
pub mod Partitioning
pub mod Keeper
