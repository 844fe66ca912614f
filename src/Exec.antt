-- ===== src/Exec.antt =====
-- Code with effects: a state, and a result or an exception. What was done before an exception stays
-- done, so the state comes back beside it. The outside world is a `Host`, which answers each call
-- from the history of the run.
mod Action
mod World
pub mod Steps
pub mod Finds
pub mod Lively
pub mod Total
unfoldable pub use Action.*
pub use World.*
