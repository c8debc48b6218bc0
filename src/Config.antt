-- ===== src/Config.antt =====
-- crates/pantheon-core/src/config: the canonical value form and its parser.
pub mod Value
pub mod Canonical
pub mod Digest
pub mod Parse
pub mod Roundtrip
pub mod Fields
pub mod Model
pub mod Revision
pub mod Error
pub mod Validate
pub mod Reader
pub mod Compile
