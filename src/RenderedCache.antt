-- ===== src/RenderedCache.antt =====
-- The cache of rendered poll responses, services/analyzer/app/features/queries/rendered_cache.py.
mod Defs
pub mod Bounds
pub mod Lookup
unfoldable pub use Defs.{
  decimal, key_for, get, render, store, get_or_render, matching_keys, drop_keys, invalidate_query,
  clear,
}
pub use Defs.{Rendered, RenderedCache, Codec, max_entries, body_size}
