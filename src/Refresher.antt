-- ===== src/Refresher.antt =====
-- Runs behind a request: services/analyzer/app/features/queries/refresher.py.
mod Defs
pub mod Flights
pub mod Cooldown
unfoldable pub use Defs.{
  log_of_failure, request_refresh, refresh, cooling_down, is_in_flight, hold_off,
}
pub use Defs.{Refresher}
