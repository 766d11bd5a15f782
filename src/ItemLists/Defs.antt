-- ===== src/ItemLists/Defs.antt =====
-- The lists, their members' cache, and the operations on them. An id that is made (`new_id`) is an
-- argument; `nfc`, which normalizes a text, is a parameter.
use fraud_analyzer_engine.Prelude.{
  ℕ, String, Bool, true, false, ◌&&◌, Option, none, some, List, [], ◌∷◌, ◌++◌, ◌==◌, numbers, texts,
  if◌then◌else◌, length, ltb, any,
}
use fraud_analyzer_engine.Prelude.Outcome.{Outcome, ok, raise}
use fraud_analyzer_engine.Matching.{
  Cell, Python, Key, list_key, tokens, members_from_items, same_key,
}

-- with its items in their order
pub record ItemList : Type 0 where
  pub name : String
  pub name_key : String
  pub description : Option String
  pub created_by : Option String
  pub version : ℕ
  pub items : List String

pub record ItemListWrite : Type 0 where
  pub name : String
  pub description : Option String
  pub items : List String

pub record SaveReport : Type 0 where
  pub received : ℕ
  pub kept : ℕ

pub data ListError : Type 0 where
  list_not_found forbidden no_name : ListError
  too_many_items : ℕ → ℕ → ListError
  list_name_taken list_in_use : ListError

-- An entry of `_cache`, the oldest first.
pub record CachedMembers : Type 0 where
  pub list_id : String
  pub version : ℕ
  pub members : List Key

abbrev pub max_cached_lists : ℕ
max_cached_lists = 32

abbrev pub is_entry : String → ℕ → CachedMembers → Bool
is_entry list_id version e = e.list_id == list_id && e.version == version

-- `_cache.get(key)`
unfoldable pub find_members : String → ℕ → List CachedMembers → Option (List Key)
find_members list_id version [] = none
find_members list_id version (e ∷ cache) =
    if is_entry list_id version e then some e.members else find_members list_id version cache

unfoldable pub without : String → ℕ → List CachedMembers → List CachedMembers
without list_id version [] = []
without list_id version (e ∷ cache) =
    let rest = without list_id version cache in
    if is_entry list_id version e then rest else e ∷ rest

-- `_cache[key] = members; _cache.move_to_end(key)`, and `move_to_end` of what is there
unfoldable pub put_members : String → ℕ → List Key → List CachedMembers → List CachedMembers
unfolding without
put_members list_id version members cache =
    without list_id version cache
    ++ record { list_id = list_id; version = version; members = members } ∷ []

-- `while len(_cache) > _MAX_CACHED_LISTS: _cache.popitem(last=False)`
unfoldable pub trim : List CachedMembers → List CachedMembers
trim [] = []
trim (e ∷ cache) =
    let rest = trim cache in if ltb max_cached_lists (length (e ∷ cache)) then rest else e ∷ cache

module _ {D F : Type 0} (python : Python D F) where
  -- `load` are the items that are loaded on a miss.
  unfoldable pub cached_members :
      String → ℕ → List String → List CachedMembers → List Key × List CachedMembers
  unfolding find_members put_members trim
  cached_members list_id version load cache = elim (find_members list_id version cache) [
    | some members ↦ (members, put_members list_id version members cache)
    | none ↦
        let members = members_from_items python load in
        (members, trim (put_members list_id version members cache))
  ]

  unfoldable pub signature : String → List Key
  signature value = Key.key (list_key python (Cell.text value)) ∷ tokens python value

  -- The two sets are equal: their elements come in one order.
  unfoldable pub same_signature : List Key → List Key → Bool
  same_signature [] [] = true
  same_signature (j ∷ js) (k ∷ ks) = same_key j k && same_signature js ks
  same_signature _ _ = false

  -- the loop of `_clean_items`
  unfoldable pub clean : List (List Key) → List String → List String
  unfolding signature same_signature
  clean seen [] = []
  clean seen (raw ∷ items) =
      let value = python.py.strip raw in
      let rest = clean (signature value ∷ seen) items in
      if value == ""
      then clean seen items
      else if any (λ s. same_signature s (signature value)) seen
      then clean seen items
      else value ∷ rest

  unfoldable pub clean_items : ℕ → List String → Outcome ListError (List String × ℕ)
  unfolding clean
  clean_items limit items =
      if ltb limit (length items)
      then raise (ListError.too_many_items limit (length items))
      else ok (clean [] items, length items)
