-- ===== src/Examples.antt =====
-- Concrete inputs that the theorems are applied to, and runs of the definitions.
mod Authz
mod Roster
mod Agent
mod Alert
mod Fold
mod Window
mod Rollout
mod Release
mod Limiter
mod Currency
mod Analysis
mod Key
mod Detection
mod Keeper
mod Correlation
