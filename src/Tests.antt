-- ===== src/Tests.antt =====
-- Runs on concrete inputs, and the theorems at such inputs.
mod Trees
mod Signals
mod Anchors
mod Harness
mod Campaign
mod Sandbox
mod Guard
mod Toolchain
mod Kill
mod AnchorCheck
