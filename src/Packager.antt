-- ===== src/Packager.antt =====
-- project_packager.py: what goes into an archive of the project, and what an archive shows of itself.
pub mod Paths
pub mod Rules
pub mod Scan
pub mod Ships
pub mod Shipped
pub mod Digest
pub mod Archive
pub mod Verify
pub mod Vouched
pub mod Verified
pub mod Sealed
pub mod Roundtrip
pub mod Excluded
pub mod Profiles
pub mod Stricter
pub mod Strict
pub mod Signatures
pub mod Secrets
pub mod Gate
pub mod Command
pub mod Stopped
pub mod Released
pub mod Config
pub mod Typed
pub mod Reads
mod Tests
