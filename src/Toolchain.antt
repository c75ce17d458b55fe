-- ===== src/Toolchain.antt =====
-- scripts/w634-toolchain-pin-controls.py: the campaign for the toolchain's security floor, and its half
-- that CI runs, `--check-anchors`.
pub mod Pins
pub mod Anchors
pub mod Table
pub mod Runner
pub mod Applies
pub mod Restored
pub mod Caught
pub mod Verdicts
pub mod Scored
pub mod Unfailed
pub mod Pinned
pub mod Matched
pub mod Blocks
pub mod Jobs
pub mod Spans
pub mod Undone
pub mod Anchored
pub mod AnchorCheck
