-- ===== src/Detection.antt =====
-- internal/detection: the rules, from the expression that a compiled rule holds to the events it
-- decides.
pub mod Value
pub mod Node
pub mod Meaning
pub mod Gathered
pub mod Sufficient
pub mod Decide
pub mod Contradiction
pub mod Alike
pub mod Inside
pub mod Unmet
pub mod Refused
pub mod Identity
