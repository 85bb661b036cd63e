-- ===== src/Files.antt =====
-- Names of files and space for them: src/adp/utils/url_utils.py and src/adp/core/storage.py.
pub mod Names
pub mod Safe
pub mod Storage
pub mod Space
mod Tests
