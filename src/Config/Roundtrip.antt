-- ===== src/Config/Roundtrip.antt =====
-- Reading back what the canonical encoding writes.
mod Position
mod Number
mod Strings
mod Containers
mod Steps
mod Heads
pub mod Values
