-- ===== src/Polling.antt =====
-- The poll of one query: services/analyzer/app/features/queries/polling.py.
mod Defs
pub mod Shown
unfoldable pub use Defs.{poll_one, answer, execute_and_log, cached_entry}
pub use Defs.{Answer, Desk, Poll}
