-- ===== src/Drill/Fixture.antt =====
-- The class Fixture of scripts/recovery-drill.py.
mod Make
mod Containers
mod Databases
unfoldable pub use Make.*
unfoldable pub use Containers.*
unfoldable pub use Databases.*
