-- ===== src/Contract.antt =====
-- The embedded release contract of an image, as scripts/release_contract.py decodes and checks it:
-- `validate_contract` and `strict_object`.
mod Defs
pub mod Validate
pub mod Strict
unfoldable pub use Defs.*
