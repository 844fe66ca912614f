-- ===== src/Image/Defs.antt =====
-- The functions of scripts/release_contract.py that call Docker. A state is the history of the run.
mod Docker
mod Inspect
unfoldable pub use Docker.*
unfoldable pub use Inspect.*
