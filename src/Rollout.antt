-- ===== src/Rollout.antt =====
-- internal/agentupdate: the rollouts of a release, wave by wave.
pub mod Waves
pub mod Change
pub mod Names
pub mod Gate
pub mod Reach
