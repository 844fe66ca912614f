-- ===== src/Rollback.antt =====
-- The rollback drill, scripts/rollback-drill.py.
mod Jar
mod Checks
mod Removal
pub mod Safe
pub mod Owned
pub mod Candidate
unfoldable pub use Jar.*
unfoldable pub use Checks.*
unfoldable pub use Removal.*
