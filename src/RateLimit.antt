-- ===== src/RateLimit.antt =====
-- Per-client request budgets, services/analyzer/app/ratelimit.py.
mod Defs
pub mod Counting
pub mod Requests
unfoldable pub use Defs.{hit, purge, count_in, is_execution, client_key, dispatch}
pub use Defs.{Window, Windows, Request, Verdict, window_of, reset_in, seconds}
