-- ===== src/Planning.antt =====
-- crates/pantheon-core/src/planning.
pub mod Scope
pub mod Goal
pub mod Task
pub mod Proposal
pub mod Evaluators
pub mod Validate
pub mod Direct
