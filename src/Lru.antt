-- ===== src/Lru.antt =====
-- What the two byte-bounded caches of services/analyzer/app/features/queries/ (result_cache.py,
-- rendered_cache.py) keep and do: ordered entries, a running byte total, and eviction of the
-- oldest. The total is a number that the code subtracts from; `IsExact` shows that it never
-- falls below what is subtracted.
mod Evict
mod Defs
mod Bounds
unfoldable pub use Evict.{evict, newest_fitting}
pub use Evict.{
  fits, newest_fitting-total, newest_fitting-length, newest_fitting_of_fits, newest_fitting-suffix,
  get-newest_fitting,
}
unfoldable pub use Defs.{drop, admit, touch}
pub use Defs.{Held, empty}
pub use Bounds.*
