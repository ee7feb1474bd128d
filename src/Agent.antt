-- ===== src/Agent.antt =====
-- internal/agent: the registry's decisions about an agent, and the contract's messages they are
-- made of.
pub mod State
pub mod Record
pub mod Identity
pub mod Register
pub mod Move
pub mod Roster
pub mod Gateway
pub mod Lifecycle
pub mod Renewal
