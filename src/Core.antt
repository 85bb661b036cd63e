-- ===== src/Core.antt =====
-- The shared parts of the download engine (src/adp/core).
pub mod Models
pub mod Session
pub mod Scheduler
pub mod Stats
pub mod Counting
mod Tests
pub mod SpeedLimiter
pub mod Throttle
