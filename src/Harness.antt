-- ===== src/Harness.antt =====
-- The control harnesses: scripts that mutate tracked files, run a guard on each mutation, and put
-- the files back, on the normal path, on an exception and on a signal.
pub mod Disk
pub mod Process
pub mod Catcher
pub mod Restored
pub mod Cases
pub mod Scored
pub mod Guard
pub mod Probed
pub mod Predicted
