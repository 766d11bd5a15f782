-- ===== src/ItemLists/Coherent.antt =====
-- The cache of members under any sequence of writes and reads of lists.
use fraud_analyzer_engine.Prelude.{
  ℕ, ◌≤◌, ◌<◌, String, ◌≡◌, refl, sym, ap, ◌∙◌, false, Option, none, some, List, [], ◌∷◌, ◌++◌,
  ◌==◌, texts, numbers, if◌then◌else◌, length, ltb, any, arith, eq_iff, Option-cases, Bool-cases,
  inl, inr,
}
use mathlib.Core.Path.{subst}
use fraud_analyzer_engine.Dict
use fraud_analyzer_engine.Dict.{Dict, get-set, get-remove}
use fraud_analyzer_engine.Matching.{Key, Python, members_from_items}
use fraud_analyzer_engine.ItemLists.Defs.{
  ItemList, CachedMembers, is_entry, find_members, without, put_members, trim, max_cached_lists,
  cached_members,
}
use fraud_analyzer_engine.ItemLists.Service.{members_of}

module _ {D F : Type 0} (python : Python D F) where
  -- What is cached of a list as it is: the members of its items, or those of an older version.
  abbrev IsCurrent : CachedMembers → Option ItemList → Type 0
  IsCurrent e none = Unit
  IsCurrent e (some l) =
      (e.version ≤ l.version)
      × ((if e.version == l.version then e.members else members_from_items python l.items)
          ≡ members_from_items python l.items)

  abbrev pub IsCoherent : Dict ItemList → List CachedMembers → Type 0
  IsCoherent lists [] = Unit
  IsCoherent lists (e ∷ cache) = IsCurrent e (Dict.get e.list_id lists) × IsCoherent lists cache

  without-IsCoherent :
      (id : String) (version : ℕ) (lists : Dict ItemList) (cache : List CachedMembers)
      → IsCoherent lists cache
      → IsCoherent lists (without id version cache)
  unfolding without
  without-IsCoherent id version lists [] c = tt
  without-IsCoherent id version lists (e ∷ cache) c = elim (Bool-cases (is_entry id version e)) [
    | inl h ↦ rw h (without-IsCoherent id version lists cache c.1)
    | inr h ↦ rw h (c.0, without-IsCoherent id version lists cache c.1)
  ]

  append-IsCoherent :
      (e : CachedMembers) (lists : Dict ItemList) (cache : List CachedMembers)
      → IsCurrent e (Dict.get e.list_id lists)
      → IsCoherent lists cache
      → IsCoherent lists (cache ++ e ∷ [])
  append-IsCoherent e lists [] h c = (h, tt)
  append-IsCoherent e lists (d ∷ cache) h c = (c.0, append-IsCoherent e lists cache h c.1)

  trim-IsCoherent :
      (lists : Dict ItemList) (cache : List CachedMembers)
      → IsCoherent lists cache
      → IsCoherent lists (trim cache)
  unfolding trim
  trim-IsCoherent lists [] c = tt
  trim-IsCoherent lists (e ∷ cache) c =
      elim (Bool-cases (ltb max_cached_lists (length (e ∷ cache)))) [
        | inl h ↦ rw h (trim-IsCoherent lists cache c.1)
        | inr h ↦ rw h c
      ]

  find-current :
      (id : String) (l : ItemList) (m : List Key) (lists : Dict ItemList)
      (cache : List CachedMembers)
      → IsCoherent lists cache
      → Dict.get id lists ≡ some l
      → find_members id l.version cache ≡ some m
      → m ≡ members_from_items python l.items
  unfolding find_members
  find-current id l m lists [] c g f = absurd (ground arith)
  find-current id l m lists (e ∷ cache) c g f = elim (Bool-cases (is_entry id l.version e)) [
    | inl h ↦
        let same : Dict.get e.list_id lists ≡ some l =
          ap (λ i. Dict.get i lists) (ground (arith, eq_iff e.list_id id)) ∙ g in
        let found : m ≡ e.members = ground arith in
        let (older, current) : IsCurrent e (some l) = subst (IsCurrent e) same c.0 in ground arith
    | inr h ↦ find-current id l m lists cache c.1 g (ground arith)
  ]

  IsCurrent-fresh :
      (id : String) (l : ItemList) (o : Option ItemList)
      → o ≡ some l
      → IsCurrent
          (record {
            list_id = id;
            version = l.version;
            members = members_from_items python l.items;
          })
          o
  IsCurrent-fresh id l o h = rw h (omega arith, ground arith)

  put-IsCoherent :
      (id : String) (l : ItemList) (m : List Key) (lists : Dict ItemList)
      (cache : List CachedMembers)
      → IsCoherent lists cache
      → Dict.get id lists ≡ some l
      → m ≡ members_from_items python l.items
      → IsCoherent lists (put_members id l.version m cache)
  unfolding put_members
  put-IsCoherent id l m lists cache c g e = rw e (
      append-IsCoherent _ lists (without id l.version cache)
        (IsCurrent-fresh id l (Dict.get id lists) g)
        (without-IsCoherent id l.version lists cache c))

  -- A read has the members of the items as they are, and keeps the cache so.
  pub members_of-IsCoherent :
      (id : String) (l : ItemList) (lists : Dict ItemList) (cache : List CachedMembers)
      → IsCoherent lists cache
      → Dict.get id lists ≡ some l
      → (let (members, cache') = members_of python id l cache in
          (members ≡ members_from_items python l.items) × IsCoherent lists cache')
  unfolding members_of cached_members
  members_of-IsCoherent id l lists cache c g =
      elim (Option-cases (find_members id l.version cache)) [
        | inl n ↦
            rw (cached_members, n)
              (refl, trim-IsCoherent lists _ (put-IsCoherent id l _ lists cache c g refl))
        | inr (m, f) ↦
            let current = find-current id l m lists cache c g f in
            rw (cached_members, f) (current, put-IsCoherent id l m lists cache c g current)
      ]

  IsCurrent-newer :
      (e : CachedMembers) (l l' : ItemList)
      → l.version < l'.version
      → IsCurrent e (some l)
      → IsCurrent e (some l')
  IsCurrent-newer e l l' v (older, current) = (omega arith, ground arith)

  -- A write that makes a newer version of a list.
  pub newer-IsCoherent :
      (id : String) (l l' : ItemList) (lists : Dict ItemList) (cache : List CachedMembers)
      → Dict.get id lists ≡ some l
      → l.version < l'.version
      → IsCoherent lists cache
      → IsCoherent (Dict.set id l' lists) cache
  newer-IsCoherent id l l' lists [] g v c = tt
  newer-IsCoherent id l l' lists (e ∷ cache) g v c =
      (head, newer-IsCoherent id l l' lists cache g v c.1)
    where
      head : IsCurrent e (Dict.get e.list_id (Dict.set id l' lists))
      head = elim (Bool-cases (id == e.list_id)) [
        | inl h ↦
            let same : id ≡ e.list_id = ground (arith, eq_iff id e.list_id) in
            rw (get-set id e.list_id l' lists, h)
              (IsCurrent-newer e l l' v
                (subst (IsCurrent e) (ap (λ i. Dict.get i lists) (sym same) ∙ g) c.0))
        | inr h ↦ rw (get-set id e.list_id l' lists, h) c.0
      ]

  -- A write of a list of which nothing is cached.
  pub new-IsCoherent :
      (id : String) (l : ItemList) (lists : Dict ItemList) (cache : List CachedMembers)
      → any (λ e. e.list_id == id) cache ≡ false
      → IsCoherent lists cache
      → IsCoherent (Dict.set id l lists) cache
  new-IsCoherent id l lists [] n c = tt
  new-IsCoherent id l lists (e ∷ cache) n c =
      let other : (id == e.list_id) ≡ false =
        ground (arith, eq_iff id e.list_id, eq_iff e.list_id id) in
      (
        rw (get-set id e.list_id l lists, other) c.0,
        new-IsCoherent id l lists cache (ground arith) c.1,
      )

  pub removed-IsCoherent :
      (id : String) (lists : Dict ItemList) (cache : List CachedMembers)
      → IsCoherent lists cache
      → IsCoherent (Dict.remove id lists) cache
  removed-IsCoherent id lists [] c = tt
  removed-IsCoherent id lists (e ∷ cache) c = elim (Bool-cases (id == e.list_id)) [
    | inl h ↦ (rw (get-remove id e.list_id lists, h) tt, removed-IsCoherent id lists cache c.1)
    | inr h ↦ (rw (get-remove id e.list_id lists, h) c.0, removed-IsCoherent id lists cache c.1)
  ]
