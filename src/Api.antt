-- ===== src/Api.antt =====
-- src/adp/api: what the REST and MCP servers ask of the panels.
pub mod Downloads
pub mod Refusals
pub mod Updates
pub mod Torrents
pub mod Named
pub mod Partial
mod Tests
mod TorrentTests
