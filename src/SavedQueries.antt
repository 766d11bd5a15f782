-- ===== src/SavedQueries.antt =====
-- The queries that are stored, and who may see them: services/analyzer/app/features/queries/service.py,
-- and the refresh of a connection in features/flag_rules/service.py.
pub mod Defs
pub mod Visible
pub mod Service
pub mod Names
pub mod Stored
pub mod Histories
pub mod Refresh
pub mod Refreshed
pub mod Selected
pub mod Fanout
