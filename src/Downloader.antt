-- ===== src/Downloader.antt =====
-- src/adp/core/downloader: the coordinator of one download.
pub mod State
pub mod Sidecar
pub mod Finish
pub mod Spawn
pub mod Lifecycle
pub mod Worker
pub mod Fetched
pub mod Ranges
pub mod Outcome
pub mod Events
pub mod Completion
pub mod Late
pub mod Overwrite
pub mod Progress
pub mod Tiling
pub mod Fresh
pub mod Retry
pub mod LateMetadata
pub mod Stalled
pub mod Frame
mod Tests
pub mod Assembly
pub mod Together
pub mod Assembled
pub mod Rounds
pub mod Metadata
pub mod Answered
mod WorkerTests
