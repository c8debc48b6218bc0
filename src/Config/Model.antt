-- ===== src/Config/Model.antt =====
-- crates/pantheon-core/src/config/model.rs: the compiled components and their canonical values.
pub mod Agents
pub mod Execution
pub mod Context
