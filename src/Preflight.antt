-- ===== src/Preflight.antt =====
-- The check of deployment identifiers and of AWS metadata, scripts/cloud-preflight.py.
mod Patterns
mod Config
mod Defs
mod Aws
pub mod Reads
pub mod Valid
pub mod Verified
unfoldable pub use Patterns.*
unfoldable pub use Config.*
unfoldable pub use Defs.*
unfoldable pub use Aws.*
