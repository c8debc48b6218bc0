-- ===== src/Fabric.antt =====
-- crates/pantheon-core/src/execution.rs: which Agent runs a Task, on which offered back end.
pub mod Request
pub mod Resolution
pub mod Missing
pub mod Candidate
pub mod Selection
pub mod Launch
