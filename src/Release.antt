-- ===== src/Release.antt =====
-- internal/agentupdate: releases, how they are named and which of them an agent takes.
pub mod Version
pub mod Judge
