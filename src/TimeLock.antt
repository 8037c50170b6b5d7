-- ===== src/TimeLock.antt =====
-- timelock.go: tokens with an expiry. `time.Now()` is an argument: the nanoseconds since 1970.
pub mod Issue
pub mod Verify
pub mod Laws
mod Tests
