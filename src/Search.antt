-- ===== src/Search.antt =====
-- src/adp/search: what a search for torrents makes of the answers of its providers.
pub mod Models
pub mod Service
pub mod Merged
pub mod Isolated
pub mod Ranked
mod Tests
