-- ===== src/Kill.antt =====
-- scripts/w641-sigterm-controls-r7k2.py: scripts with a signal handler are really killed while they
-- mutate the tree, with the handler and without.
pub mod Lines
pub mod Tree
pub mod Runs
pub mod Edited
pub mod Restored
pub mod Killed
pub mod Scored
pub mod Recorded
pub mod Live
