-- ===== src/Publishing.antt =====
-- Publishing a chart, and asking for it: services/analyzer/app/features/charts/service.py.
mod Defs
pub mod Transitions
pub mod Races
pub mod Approvals
pub mod Histories
unfoldable pub use Defs.{
  publish_status, chart_for_owner, apply_if, publish_write, publish, cancel_write, cancel_request,
  pending_chart, approve_read, approve_write, approve, reject_read, reject_write, reject,
  unpublish_read, unpublish_write, unpublish, get_published,
}
pub use Defs.{Error, AuditAction, AuditEntry, QueryChart, SavedQuery, Db, Status}
