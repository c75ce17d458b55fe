-- ===== src/Signals.antt =====
-- scripts/check-restore-signal-handlers.py: every control script that mutates a tracked file and
-- restores it in a `finally` must install a restoring signal handler.
pub mod Detect
pub mod Found
pub mod Exemptions
pub mod Rules
pub mod Accepted
pub mod Green
pub mod Scan
