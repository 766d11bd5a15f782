-- ===== src/Queries.antt =====
-- Saved queries, what a run of one produces, and what it leaves behind:
-- services/analyzer/app/features/queries/{models,execution,service}.py.
mod Defs
mod Store
unfoldable pub use Defs.{poll_interval_for, as_dict, log_execution}
pub use Defs.{
  Settings, Connection, SavedQuery, RunPayload, RunBody, RunError, QueryExecutionLog, Stores,
}
unfoldable pub use Store.{store_run, log_of}
pub use Store.{Run, Program}
