-- ===== src/ItemLists/Reads.antt =====
-- Lists and the cache of their members under any sequence of creations, updates, deletions and reads.
use fraud_analyzer_engine.Prelude.{
  ℕ, String, ◌≡◌, false, none, some, List, [], ◌==◌, texts, any, arith, Bool-cases, inl, inr,
}
use fraud_analyzer_engine.Prelude.Outcome.{ok, raise, Outcome-cases}
use fraud_analyzer_engine.Dict
use fraud_analyzer_engine.Dict.{Dict, get-remove}
use fraud_analyzer_engine.Matching.{Python, members_from_items}
use fraud_analyzer_engine.ResultCache.{Caches}
use fraud_analyzer_engine.ItemLists.Defs.{ItemList, ItemListWrite, CachedMembers}
use fraud_analyzer_engine.ItemLists.Service.{
  ListUse, Person, checked, create_list, update_list, delete_list, members_of, is_used,
}
use fraud_analyzer_engine.ItemLists.Coherent.{
  IsCoherent, members_of-IsCoherent, newer-IsCoherent, new-IsCoherent, removed-IsCoherent,
}

-- the lists in the database, and the process's cache
pub record Library : Type 0 where
  pub lists : Dict ItemList
  pub cache : List CachedMembers

module _ {D F : Type 0} (python : Python D F) (nfc : String → String) (limit : ℕ) where
  -- A request leaves the lists as they were if it raises.
  unfoldable pub created : String → ItemListWrite → Person → Library → Library
  created new_id payload user s = elim (create_list python nfc limit new_id payload user s.lists) [
    | raise e ↦ s
    | ok (report, lists) ↦ record s { lists = lists }
  ]

  unfoldable pub updated :
      {P : Type 0} → List ListUse → String → ItemList → ItemListWrite → Caches P → Library → Library
  updated uses id l payload caches s =
      elim (update_list python nfc limit uses id l payload s.lists caches) [
        | raise e ↦ s
        | ok (report, lists, caches') ↦ record s { lists = lists }
      ]

  unfoldable pub deleted : List ListUse → String → Library → Library
  deleted uses id s = elim (delete_list uses id s.lists) [
    | raise e ↦ s
    | ok lists ↦ record s { lists = lists }
  ]

  pub data Step (P : Type 0) : Library → Library → Type 0 where
    create :
        (s : Library) (new_id : String) (payload : ItemListWrite) (user : Person)
        → any (λ e. e.list_id == new_id) s.cache ≡ false
        → Step P s (created new_id payload user s)
    update :
        (s : Library) (uses : List ListUse) (id : String) (l : ItemList) (payload : ItemListWrite)
        (caches : Caches P)
        → Dict.get id s.lists ≡ some l
        → Step P s (updated uses id l payload caches s)
    delete : (s : Library) (uses : List ListUse) (id : String) → Step P s (deleted uses id s)
    read :
        (s : Library) (id : String) (l : ItemList)
        → Dict.get id s.lists ≡ some l
        → Step P s (record s { cache = (members_of python id l s.cache).1 })

  pub data Reach (P : Type 0) : Library → Type 0 where
    start : (lists : Dict ItemList) → Reach P (record { lists = lists; cache = [] })
    next : {s t : Library} → Reach P s → Step P s t → Reach P t

  IsSound : Library → Type 0
  IsSound s = IsCoherent python s.lists s.cache

  created-IsSound :
      (s : Library) (new_id : String) (payload : ItemListWrite) (user : Person)
      → any (λ e. e.list_id == new_id) s.cache ≡ false
      → IsSound s
      → IsSound (created new_id payload user s)
  unfolding IsSound created create_list
  created-IsSound s new_id payload user n c =
      elim (Outcome-cases (checked python nfc limit none payload s.lists)) [
        | inr (e, h) ↦ rw (created, h) c
        | inl ((name, values, received), h) ↦
            rw (created, h) (new-IsCoherent python new_id _ s.lists s.cache n c)
      ]

  updated-IsSound :
      {P : Type 0} (s : Library) (uses : List ListUse) (id : String) (l : ItemList)
      (payload : ItemListWrite) (caches : Caches P)
      → Dict.get id s.lists ≡ some l
      → IsSound s
      → IsSound (updated uses id l payload caches s)
  unfolding IsSound updated update_list
  updated-IsSound s uses id l payload caches g c =
      elim (Outcome-cases (checked python nfc limit (some id) payload s.lists)) [
        | inr (e, h) ↦ rw (updated, h) c
        | inl ((name, values, received), h) ↦
            rw (updated, h) (newer-IsCoherent python id l _ s.lists s.cache g (omega arith) c)
      ]

  deleted-IsSound :
      (s : Library) (uses : List ListUse) (id : String) → IsSound s → IsSound (deleted uses id s)
  unfolding IsSound deleted delete_list
  deleted-IsSound s uses id c = elim (Bool-cases (is_used id uses)) [
    | inl h ↦ rw (deleted, h) c
    | inr h ↦ rw (deleted, h) (removed-IsCoherent python id s.lists s.cache c)
  ]

  Step-IsSound : {P : Type 0} {s t : Library} → Step P s t → IsSound s → IsSound t
  unfolding IsSound
  Step-IsSound (create s new_id payload user n) c = created-IsSound s new_id payload user n c
  Step-IsSound (update s uses id l payload caches g) c =
      updated-IsSound s uses id l payload caches g c
  Step-IsSound (delete s uses id) c = deleted-IsSound s uses id c
  Step-IsSound (read s id l g) c = (members_of-IsCoherent python id l s.lists s.cache c g).1

  Reach-IsSound : {P : Type 0} {s : Library} → Reach P s → IsSound s
  unfolding IsSound
  Reach-IsSound (start lists) = tt
  Reach-IsSound (next r step) = Step-IsSound step (Reach-IsSound r)

  -- Whatever was created, saved, deleted and read before, with ids that are new when a list is created,
  -- a rule that reads a list gets the members of its items as they are now.
  pub members_of-current :
      {P : Type 0} (s : Library) (id : String) (l : ItemList)
      → Reach P s
      → Dict.get id s.lists ≡ some l
      → (members_of python id l s.cache).0 ≡ members_from_items python l.items
  unfolding IsSound
  members_of-current s id l r g =
      (members_of-IsCoherent python id l s.lists s.cache (Reach-IsSound r) g).0
