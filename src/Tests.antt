-- ===== src/Tests.antt =====
-- The development on concrete inputs.
mod Caches
mod Publishing
mod RateLimit
mod Identity
mod FlagRules
mod Findings
mod Execution
mod ItemLists
mod Queries
mod Retention
mod SavedQueries
mod SqlGuard
