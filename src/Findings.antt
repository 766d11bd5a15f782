-- ===== src/Findings.antt =====
-- The queue of findings that needs review, and each reader's dismissals:
-- services/analyzer/app/features/flag_rules/flagged_rows.py and dismissals.py.
mod Defs
mod Dismissals
pub mod Sync
pub mod Cleared
pub mod Restored
pub mod Served
unfoldable pub use Defs.{fingerprint_or, match_rows, sync_rows, sync, delete_rows, is_listed}
pub use Defs.{Flagged, Flags, Found, FlaggedRow, FlaggedTable, rows_of}
unfoldable pub use Dismissals.{
  dismissed_fingerprints, dismiss, restore, apply_dismissals, uncleared, filter_payload, is_cleared,
}
pub use Dismissals.{FlagDismissal, Payload}
