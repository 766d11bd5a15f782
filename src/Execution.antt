-- ===== src/Execution.antt =====
-- One run of a query on its target: services/analyzer/app/features/queries/execution.py.
pub mod Json
pub mod Wire
mod Defs
pub mod Bounded
pub mod Flagging
pub mod Charts
unfoldable pub use Defs.{
  resolve_row_limit, execute_sql, dry_run, fetch_rows, build_rows, coerced, take,
}
pub use Defs.{Limits, ExecutionError, ExecutionResult, Target}
