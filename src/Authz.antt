-- ===== src/Authz.antt =====
-- internal/authz: who a caller is, what they may do and where.
pub mod Permission
pub mod Policy
pub mod Grant
pub mod Loading
pub mod Compiled
