-- ===== src/ItemLists.antt =====
-- Named lists of values, which flag rules read: services/analyzer/app/features/lists/service.py, and
-- the cache of their members in lists/matching.py.
mod Defs
mod Service
mod Coherent
pub mod Reads
pub mod Writes
pub mod Cleaned
unfoldable pub use Defs.{clean, cached_members, signature, clean_items}
pub use Defs.{ItemList, ItemListWrite, ListError, CachedMembers, SaveReport}
unfoldable pub use Service.{
  members_of, create_list, update_list, delete_list, get_changeable, name_taken,
}
pub use Service.{ListUse, Person}
