-- ===== src/ItemLists/Service.antt =====
-- Creating, replacing and deleting lists: services/analyzer/app/features/lists/service.py. The database
-- checks the unique name and the foreign key again; one transaction at a time, it finds what the code did.
use fraud_analyzer_engine.Prelude.{
  ℕ, suc, String, Bool, false, ◌&&◌, ◌||◌, not, Option, none, some, List, [], ◌∷◌, ◌==◌, texts,
  if◌then◌else◌, length, any, same_option,
}
use fraud_analyzer_engine.Prelude.Outcome.{Outcome, ok, raise, ◌>>=◌}
use fraud_analyzer_engine.Dict
use fraud_analyzer_engine.Dict.{Dict}
use fraud_analyzer_engine.Matching.{Key, Python}
use fraud_analyzer_engine.ResultCache
use fraud_analyzer_engine.ResultCache.{Caches}
use fraud_analyzer_engine.ItemLists.Defs.{
  ItemList, ItemListWrite, SaveReport, ListError, CachedMembers, cached_members, clean_items,
}

-- a condition of a rule of a query that reads a list
pub record ListUse : Type 0 where
  pub list_id : String
  pub query_id : String

unfoldable pub is_used : String → List ListUse → Bool
is_used list_id uses = any (λ u. u.list_id == list_id) uses

unfoldable pub query_ids_using : String → List ListUse → List String
query_ids_using list_id [] = []
query_ids_using list_id (u ∷ uses) =
    let rest = query_ids_using list_id uses in
    if u.list_id == list_id then u.query_id ∷ rest else rest

unfoldable pub invalidate_all : {P : Type 0} → List String → Caches P → Caches P
invalidate_all [] c = c
invalidate_all (q ∷ qs) c = invalidate_all qs (ResultCache.invalidate q c)

-- the user of the request
pub record Person : Type 0 where
  pub id : String
  pub is_admin : Bool

unfoldable pub can_change : ItemList → Person → Bool
can_change item_list user = user.is_admin || same_option item_list.created_by (some user.id)

unfoldable pub get_changeable : String → Person → Dict ItemList → Outcome ListError ItemList
unfolding can_change
get_changeable list_id user lists = elim (Dict.get list_id lists) [
  | none ↦ raise ListError.list_not_found
  | some item_list ↦ if can_change item_list user then ok item_list else raise ListError.forbidden
]

-- another list with this key
unfoldable pub name_taken : String → Option String → Dict ItemList → Bool
name_taken key except [] = false
name_taken key except ((id, l) ∷ lists) =
    l.name_key == key && not (same_option (some id) except) || name_taken key except lists

abbrev or_none : String → Option String
or_none s = if s == "" then none else some s

unfoldable pub members_of :
    {D F : Type 0}
    → Python D F
    → String
    → ItemList
    → List CachedMembers
    → List Key × List CachedMembers
members_of python list_id item_list cache =
    cached_members python list_id item_list.version item_list.items cache

module _ {D F : Type 0} (python : Python D F) (nfc : String → String) (max_list_items : ℕ) where
  unfoldable pub name_key : String → String
  name_key name = nfc (python.py.casefold (nfc (python.py.strip name)))

  -- `(payload.description or "").strip() or None`
  unfoldable pub description_of : Option String → Option String
  description_of none = or_none (python.py.strip "")
  description_of (some d) = or_none (python.py.strip d)

  -- the name, the items kept and the number received
  unfoldable pub checked :
      Option String → ItemListWrite → Dict ItemList → Outcome ListError (String × List String × ℕ)
  unfolding name_key
  checked except payload lists =
      let name = python.py.strip payload.name in
      if name == ""
      then raise ListError.no_name
      else (clean_items python max_list_items payload.items >>= λ (values, received).
          if name_taken (name_key name) except lists
          then raise ListError.list_name_taken
          else ok (name, values, received))

  unfoldable pub create_list :
      String
      → ItemListWrite
      → Person
      → Dict ItemList
      → Outcome ListError (SaveReport × Dict ItemList)
  unfolding checked description_of
  create_list new_id payload user lists = checked none payload lists >>= λ (name, values, received).
      ok (
        record { received = received; kept = length values },
        Dict.set new_id
            (record {
              name = name;
              name_key = name_key name;
              description = description_of payload.description;
              created_by = some user.id;
              version = 1;
              items = values;
            })
            lists,
      )

  unfoldable pub update_list :
      {P : Type 0}
      → List ListUse
      → String
      → ItemList
      → ItemListWrite
      → Dict ItemList
      → Caches P
      → Outcome ListError (SaveReport × Dict ItemList × Caches P)
  unfolding checked description_of query_ids_using invalidate_all
  update_list uses list_id item_list payload lists caches =
      checked (some list_id) payload lists >>= λ (name, values, received). ok (
        record { received = received; kept = length values },
        Dict.set list_id
            (record item_list {
              name = name;
              name_key = name_key name;
              description = description_of payload.description;
              version = suc item_list.version;
              items = values;
            })
            lists,
        invalidate_all (query_ids_using list_id uses) caches,
      )

unfoldable pub delete_list :
    List ListUse → String → Dict ItemList → Outcome ListError (Dict ItemList)
delete_list uses list_id lists =
    if is_used list_id uses then raise ListError.list_in_use else ok (Dict.remove list_id lists)
