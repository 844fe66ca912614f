-- ===== src/Load.antt =====
-- The bounded workload of concurrent requests, scripts/load-test.py.
mod Defs
pub mod Moves
pub mod Shared
pub mod Ends
pub mod Rank
pub mod Verdict
unfoldable pub use Defs.*
