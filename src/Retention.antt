-- ===== src/Retention.antt =====
-- How the execution log is pruned: prune_execution_logs of
-- services/analyzer/app/features/queries/service.py.
mod Defs
mod Newest
pub mod Pruned
unfoldable pub use Defs.{prune_execution_logs, drop_old}
pub use Defs.{LogRow, LogSettings, rows_of, times}
mod Deleted
pub mod Trimmed
