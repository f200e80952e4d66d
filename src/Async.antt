-- ===== src/Async.antt =====
-- edge/poll_async.go: the polling of the async mode.
pub mod Commands
pub mod Loop
pub mod FailSafe
pub mod Flags
pub mod Coalescing
pub mod Schedules
pub mod Effects
pub mod Examples
