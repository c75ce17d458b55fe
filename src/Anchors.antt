-- ===== src/Anchors.antt =====
-- scripts/check-control-anchors.py: every control script's anchors must still resolve in the file
-- that they name.
pub mod Tables
pub mod Shape
pub mod Harvest
pub mod Rows
pub mod Unshared
pub mod Reading
pub mod Computes
pub mod Roles
pub mod Bare
pub mod Sandbox
pub mod Restored
pub mod Census
pub mod Rules
pub mod Accounted
pub mod Applied
