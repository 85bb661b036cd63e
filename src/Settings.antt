-- ===== src/Settings.antt =====
-- src/adp/core/app_settings.py: stored settings over the defaults.
pub mod Store
pub mod Merged
mod Tests
