-- ===== src/Tests/ItemLists.antt =====
-- services/analyzer/app/features/lists/service.py on a few lists.
use fraud_analyzer_engine.Prelude.{
  ℕ, String, ◌≡◌, refl, not, ◌&&◌, none, some, List, [], ◌∷◌, map, any, ◌==◌, texts,
}
use fraud_analyzer_engine.Dict
use fraud_analyzer_engine.Dict.{Dict}
use fraud_analyzer_engine.Matching.{Cell, Key, has, same_key, tokens, list_key, members_from_items}
use fraud_analyzer_engine.ResultCache
use fraud_analyzer_engine.ResultCache.{Caches}
use fraud_analyzer_engine.ItemLists.{
  ItemList, ItemListWrite, ListUse, clean, clean_items, name_taken, members_of, update_list,
}
use fraud_analyzer_engine.ItemLists.Reads.{Library, Step, Reach, updated, members_of-current}
use fraud_analyzer_engine.ItemLists.Writes.{
  update_list-is_cached, is_cached, caches_after, has_saved,
}
use fraud_analyzer_engine.ItemLists.Cleaned.{has-clean}
use fraud_analyzer_engine.Tests.FlagRules.{plain}

abbrev same_text : String → String
same_text s = s

abbrev blocked : ItemList
blocked = record {
  name = "Blocked";
  name_key = "Blocked";
  description = none;
  created_by = some "ann";
  version = 1;
  items = "T1" ∷ [];
}

abbrev start : Library
start = record { lists = ("l", blocked) ∷ []; cache = [] }

abbrev saved : ItemListWrite
saved = record { name = "Blocked"; description = none; items = "T2" ∷ "T2" ∷ "" ∷ [] }

abbrev uses : List ListUse
uses = record { list_id = "l"; query_id = "q" } ∷ []

abbrev nothing_cached : Caches ℕ
nothing_cached = ResultCache.clear

blank_key : list_key plain (Cell.text "") ≡ ""
unfolding list_key
blank_key = refl

has-clean_example :
    has (members_from_items plain (clean plain [] ("T2" ∷ "T2" ∷ "" ∷ []))) (Key.key "T2")
    ≡ has (members_from_items plain (map (λ s. s) ("T2" ∷ "T2" ∷ "" ∷ []))) (Key.key "T2")
has-clean_example = has-clean plain (Key.key "T2") ("T2" ∷ "T2" ∷ "" ∷ []) blank_key

update_list-is_cached_example :
    let outcome =
      update_list plain same_text 10 uses "l" blocked saved start.lists nothing_cached in
    is_cached "q" (caches_after nothing_cached outcome) ≡ (
      is_cached "q" nothing_cached
      && not (has_saved outcome && any (λ u. u.list_id == "l" && u.query_id == "q") uses))
update_list-is_cached_example =
    update_list-is_cached plain same_text 10 uses "l" "q" blocked saved start.lists nothing_cached

abbrev read_once : Library
read_once = record start { cache = (members_of plain "l" blocked []).1 }

abbrev edited : Library
edited = updated plain same_text 10 uses "l" blocked saved nothing_cached read_once

abbrev after : ItemList
after = record blocked { version = 2; items = "T2" ∷ [] }

saved_after : Dict.get "l" edited.lists ≡ some after
unfolding updated update_list clean clean_items name_taken same_key tokens list_key Dict.get
    Dict.set
saved_after = refl

reads_after : Reach plain same_text 10 ℕ edited
unfolding Dict.get
reads_after =
    Reach.next (Reach.next (Reach.start start.lists) (Step.read start "l" blocked refl))
      (Step.update read_once uses "l" blocked saved nothing_cached refl)

members_of-current_example :
    (members_of plain "l" after edited.cache).0 ≡ members_from_items plain ("T2" ∷ [])
members_of-current_example =
    members_of-current plain same_text 10 edited "l" after reads_after saved_after
