-- ===== src/Webhook.antt =====
-- The receiver of alert notifications, monitoring/webhook-receiver.py.
mod Defs
pub mod Clean
pub mod Raises
pub mod Bound
unfoldable pub use Defs.*
