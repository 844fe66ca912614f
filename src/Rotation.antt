-- ===== src/Rotation.antt =====
-- The credential rotation drill, scripts/credential-rotation-drill.py.
mod Defs
pub mod Sound
pub mod Preserved
pub mod Replaced
pub mod Rotated
unfoldable pub use Defs.*
