-- ===== src/Artifact.antt =====
-- crates/pantheon-core/src/artifact.rs: repository paths, their manifest spelling, changeset entries
-- and captured states.
pub mod Path
pub mod Manifest
pub mod Changeset
