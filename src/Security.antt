-- ===== src/Security.antt =====
-- The release policy over the reports of the vulnerability scanner, scripts/check_security_reports.py.
mod Defs
pub mod Policy
unfoldable pub use Defs.*
