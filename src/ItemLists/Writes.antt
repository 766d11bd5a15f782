-- ===== src/ItemLists/Writes.antt =====
-- What a save keeps of the items it is given, and what it drops from the result cache.
use fraud_analyzer_engine.Prelude.{
  ℕ, String, ◌≡◌, refl, ap, ◌∙◌, Bool, true, false, ◌&&◌, not, some, List, [], ◌∷◌, ◌==◌, texts,
  any, arith, inl, inr, is_some,
}
use fraud_analyzer_engine.Prelude.Outcome.{Outcome, ok, raise, Outcome-cases}
use fraud_analyzer_engine.Dict
use fraud_analyzer_engine.Dict.{Dict}
use fraud_analyzer_engine.Matching.{Python}
use fraud_analyzer_engine.ResultCache.{Caches, entry_size, invalidate}
use fraud_analyzer_engine.Lru.{get-drop}
use fraud_analyzer_engine.ItemLists.Defs.{ItemList, ItemListWrite, SaveReport, ListError}
use fraud_analyzer_engine.ItemLists.Service.{
  ListUse, checked, update_list, query_ids_using, invalidate_all,
}

-- the result of a query is cached
unfoldable pub is_cached : {P : Type 0} → String → Caches P → Bool
is_cached q c = is_some (Dict.get q c.results.entries)

is_cached-invalidate :
    {P : Type 0} (q k : String) (c : Caches P)
    → is_cached k (invalidate q c) ≡ (is_cached k c && not (q == k))
unfolding is_cached invalidate
is_cached-invalidate q k c = ground (arith, get-drop entry_size q k c.results)

is_cached-all :
    {P : Type 0} (k : String) (qs : List String) (c : Caches P)
    → is_cached k (invalidate_all qs c) ≡ (is_cached k c && not (any (λ q. q == k) qs))
unfolding invalidate_all
is_cached-all k [] c = ground arith
is_cached-all k (q ∷ qs) c =
    ground (arith, is_cached-all k qs (invalidate q c), is_cached-invalidate q k c)

using-any :
    (list_id k : String) (uses : List ListUse)
    → any (λ q. q == k) (query_ids_using list_id uses)
      ≡ any (λ u. u.list_id == list_id && u.query_id == k) uses
unfolding query_ids_using
using-any list_id k [] = refl
using-any list_id k (u ∷ uses) = ground (arith, using-any list_id k uses)

-- after a save, `before` where it raised
abbrev pub caches_after :
    {P : Type 0} → Caches P → Outcome ListError (SaveReport × Dict ItemList × Caches P) → Caches P
caches_after before (raise e) = before
caches_after before (ok (report, lists, caches)) = caches

abbrev pub has_saved : {A : Type 0} → Outcome ListError A → Bool
has_saved (ok a) = true
has_saved (raise e) = false

module _ {D F : Type 0} (python : Python D F) (nfc : String → String) (limit : ℕ) where
  -- A save of a list drops the cached results of the queries with a condition that reads it, and no other.
  pub update_list-is_cached :
      {P : Type 0} (uses : List ListUse) (id k : String) (l : ItemList) (payload : ItemListWrite)
      (lists : Dict ItemList) (caches : Caches P)
      → (let saved = update_list python nfc limit uses id l payload lists caches in
          is_cached k (caches_after caches saved) ≡ (
            is_cached k caches
            && not (has_saved saved && any (λ u. u.list_id == id && u.query_id == k) uses)))
  unfolding update_list
  update_list-is_cached uses id k l payload lists caches =
      elim (Outcome-cases (checked python nfc limit (some id) payload lists)) [
        | inr (e, h) ↦ rw (update_list, h) (ground arith)
        | inl ((name, values, received), h) ↦
            rw (update_list, h)
              (is_cached-all k (query_ids_using id uses) caches
                ∙ ap (λ b. is_cached k caches && not b) (using-any id k uses))
      ]
