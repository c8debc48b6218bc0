-- ===== src/Config/Parse.antt =====
-- crates/pantheon-core/src/config/parse.rs, the strict source parser.
pub mod Scanner
pub mod Number
pub mod Utf8
pub mod Strings
pub mod Grammar
pub mod Escapes
