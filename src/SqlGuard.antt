-- ===== src/SqlGuard.antt =====
-- services/analyzer/app/security/sql_guard.py and policy/sql_allowlist.py: which statements may
-- reach a target database.
pub mod Policy
pub mod Defs
pub mod Checks
pub mod Validate
pub mod Forbidden
pub mod Positions
pub mod Scans
pub mod Tokens
pub mod Lexing
pub mod Accepted
pub mod Memo
pub mod Remembered
pub mod Executed
pub mod Listed
