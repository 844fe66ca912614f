-- ===== src/Deploy.antt =====
-- The gate in front of a deployment, scripts/verify-deployment-image.py.
mod Service
mod Defs
pub mod Settled
pub mod Found
pub mod Gate
pub mod Looks
unfoldable pub use Service.*
unfoldable pub use Defs.*
