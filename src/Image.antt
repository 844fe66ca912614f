-- ===== src/Image.antt =====
-- Inspection of an image's release contract through Docker, scripts/release_contract.py, without
-- ever starting the image's process.
mod Pattern
mod Defs
pub mod Commands
pub mod Owned
pub mod Runs
pub mod Embedded
pub mod Extract
unfoldable pub use Pattern.*
unfoldable pub use Defs.*
