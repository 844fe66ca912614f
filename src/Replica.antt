-- ===== src/Replica.antt =====
-- The replica drill, scripts/replica-drill.py.
mod Batch
mod Samples
mod Fixture
mod Summary
mod Defs
mod Run
mod Restart
pub mod Turns
pub mod Ends
pub mod Judged
pub mod Keeps
pub mod Sound
pub mod Shared
pub mod Batches
pub mod Consistent
unfoldable pub use Batch.*
unfoldable pub use Samples.*
unfoldable pub use Fixture.*
unfoldable pub use Summary.*
unfoldable pub use Defs.*
unfoldable pub use Run.*
unfoldable pub use Restart.*
