-- ===== src/Store/Lineage.antt =====
-- crates/pantheon-store/src/execution.rs: the Attempt lineage of a Run.
pub mod Revisioned
pub mod Creation
pub mod Authority
pub mod Outcome
pub mod Stable
pub mod Rows
pub mod Preserved
pub mod Fencing
pub mod Attempts
pub mod Swap
pub mod Boundary
