-- ===== src/Panel.antt =====
-- src/adp/gui/main_window/download_panel.py: the queue, the slots and the session of all downloads.
pub mod State
pub mod Actions
pub mod Restore
pub mod Slots
pub mod Fifo
pub mod Steps
pub mod Reserve
pub mod Paths
pub mod Exclusive
pub mod Removal
pub mod Reload
pub mod Answers
mod Tests
