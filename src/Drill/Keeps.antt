-- ===== src/Drill/Keeps.antt =====
-- Every operation of a fixture keeps it sound, whether it returns or raises.
mod Calls
mod Databases
mod Service
mod Cleanup
pub use Calls.*
pub use Databases.*
pub use Service.*
pub use Cleanup.*

-- What a drill does with its fixture.
pub ruleset fixture_rules = (
  action_rules, keeping, monotonic-Keeps, owned-Keeps, start_database-Keeps, migrate_database-Keeps,
  check_runtime_login-Keeps, start_app-Keeps, stop_container-Keeps, send_request-Keeps,
  expect-Keeps, wait_health-Keeps,
)
