-- ===== src/Store.antt =====
-- crates/pantheon-store/src: authoritative transactions over the durable tables.
pub mod Tables
pub mod Database
pub mod Effects
pub mod Keeps
pub mod Journal
pub mod Lineage
