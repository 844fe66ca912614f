-- ===== src/Drill.antt =====
-- The drills on disposable containers: the fixture that all of them share, and the recovery drill,
-- scripts/recovery-drill.py.
mod World
pub mod Sound
pub mod Made
pub mod Keeps
pub mod Complete
pub mod Gone
pub mod Removed
pub mod Whole
pub mod Waits
pub mod Served
mod Defs
mod Fixture
mod Runtime
mod Metadata
mod Session
mod Recovery
unfoldable pub use World.*
unfoldable pub use Defs.*
unfoldable pub use Fixture.*
unfoldable pub use Runtime.*
unfoldable pub use Metadata.*
unfoldable pub use Session.*
unfoldable pub use Recovery.*
