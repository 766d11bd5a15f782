-- ===== src/ResultCache.antt =====
-- The cache of the last result per saved query, services/analyzer/app/features/queries/result_cache.py.
mod Defs
pub mod Bounds
pub mod Lookup
pub mod Runs
unfoldable pub use Defs.{
  is_fresh, age_ms, get, get_stale, admit_entry, set, rebuilt, patch_entry, invalidate,
  patch_charts, clear,
}
pub use Defs.{CacheEntry, Caches, PayloadOps, max_entries, entry_size}
