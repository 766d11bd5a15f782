-- ===== src/Scheduler.antt =====
-- Runs of the queries that have flag rules, on a timer: services/analyzer/app/features/queries/scheduler.py.
mod Defs
pub mod Backoff
pub mod Ticks
unfoldable pub use Defs.{
  is_due, set_due_in, reschedule, run_query, run_due_once, due_queries, interval_for,
}
pub use Defs.{Schedule, Visit, Turn}
