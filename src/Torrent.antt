-- ===== src/Torrent.antt =====
-- src/adp/torrent, and src/adp/gui/torrent_panel.py, which keeps the records of the torrents.
pub mod States
pub mod Engine
pub mod Control
pub mod Panel
pub mod Moves
pub mod Session
pub mod Alerts
pub mod Actions
pub mod Kept
pub mod Known
pub mod Polled
pub mod Recorded
pub mod Seeding
mod Tests
mod PanelTests
