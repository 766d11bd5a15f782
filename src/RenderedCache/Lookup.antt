-- ===== src/RenderedCache/Lookup.antt =====
-- What a lookup in rendered_cache.py finds after the other operations.
use Prim.Native.String.{◌++◌ as ◌+++◌}
use text.Mathlib.Text.{starts_with}
use text.Mathlib.TextPositions.{starts_with-append}
use fraud_analyzer_engine.Prelude.{
  ℕ, ◌+◌, ◌≤◌, String, ◌≡◌, Bool, Option-cases, true, false, Option, none, some, List, [], ◌∷◌,
  ◌==◌, texts, eq_iff, eq_refl, arith, ltb, any, if◌then◌else◌, inl, inr, Bool-cases,
}
use fraud_analyzer_engine.Dict
use fraud_analyzer_engine.Dict.{Dict, put_last, get-put_last, put_last-remove}
use fraud_analyzer_engine.Lru.{
  Held, drop, admit, touch, newest_fitting, get-drop, entries-drop, drop-IsExact, admit_lem,
  get-admit,
}
use fraud_analyzer_engine.RenderedCache.Defs.{
  Rendered, RenderedCache, Codec, body_size, max_entries, key_for, get, render, store,
  get_or_render, matching_keys, drop_keys, invalidate_query,
}
use fraud_analyzer_engine.RenderedCache.Bounds.{IsValid}

get-drop_keys :
    (j : String) (ks : List String) (s : Held Rendered)
    → Dict.get j (drop_keys ks s).entries
      ≡ (if any (λ k. k == j) ks then none else Dict.get j s.entries)
unfolding drop_keys
get-drop_keys j [] s = ground arith
get-drop_keys j (k ∷ ks) s =
    ground (arith, get-drop body_size k j s, get-drop_keys j ks (drop body_size k s))

any-matching_keys :
    (prefix j : String) (d : Dict Rendered)
    → any (λ k. k == j) (matching_keys prefix d) ≡ true
    → starts_with j prefix ≡ true
unfolding matching_keys
any-matching_keys prefix j [] h = cc
any-matching_keys prefix j ((k, r) ∷ d) h = elim (Bool-cases (starts_with k prefix)) [
  | inl p ↦ elim (Bool-cases (k == j)) [
    | inl e ↦ rw (← (eq_iff k j).0 e) p
    | inr e ↦ any-matching_keys prefix j d (ground arith)
  ]
  | inr p ↦ any-matching_keys prefix j d (ground arith)
]

matching_keys_lem :
    (prefix j : String) (d : Dict Rendered)
    → (if any (λ k. k == j) (matching_keys prefix d) then none else Dict.get j d)
      ≡ (if starts_with j prefix then none else Dict.get j d)
unfolding matching_keys Dict.get
matching_keys_lem prefix j [] = ground arith
matching_keys_lem prefix j ((k, r) ∷ d) = elim (Bool-cases (starts_with k prefix)) [
  | inl p ↦ elim (Bool-cases (k == j)) [
    | inl e ↦ rw (p, e, ← (eq_iff k j).0 e, p)
    | inr e ↦ rw (p, e) (matching_keys_lem prefix j d)
  ]
  | inr p ↦ elim (Bool-cases (k == j)) [
    | inl e ↦ ground (arith, any-matching_keys prefix j d, eq_iff k j)
    | inr e ↦ rw (p, e) (matching_keys_lem prefix j d)
  ]
]

get_lem : (key : String) (c : RenderedCache) → (get key c).0 ≡ Dict.get key c.held.entries
unfolding get
get_lem key c = ground arith

-- After `invalidate_query` a key that begins with the query's id and `|` finds nothing, and every
-- other key finds what it found before.
pub get-invalidate_query :
    (query_id key : String) (c : RenderedCache)
    → (get key (invalidate_query query_id c)).0
      ≡ (if starts_with key (query_id +++ "|") then none else (get key c).0)
unfolding invalidate_query
get-invalidate_query query_id key c =
    rw (get_lem key (invalidate_query query_id c), get_lem key c, get-drop_keys, matching_keys_lem)

-- After `invalidate_query` no key that `key_for` makes for that query finds anything, whatever the
-- hash, the interval, the cache flag and the execution time.
pub invalidate_query-key_for :
    (query_id data_hash : String) (interval : ℕ) (from_cache : Bool) (executed_at : Option String)
    (c : RenderedCache)
    → (get
        (key_for query_id data_hash interval from_cache executed_at)
        (invalidate_query query_id c)).0
      ≡ none
unfolding key_for
invalidate_query-key_for query_id data_hash interval from_cache executed_at c =
    rw (get-invalidate_query, starts_with-append)

-- In a valid cache `store` leaves, of the entries with the new one last, the longest suffix within
-- the budget and the 256 entries; a body over the budget only takes the old entry of its key out.
pub store-newest_fitting :
    (budget : ℕ) (key : String) (r : Rendered) (c : RenderedCache)
    → IsValid budget c
    → (store budget key r c).1.held.entries ≡ (
        if ltb budget (body_size r)
        then Dict.remove key c.held.entries
        else newest_fitting body_size budget max_entries (put_last key r c.held.entries))
unfolding store
store-newest_fitting budget key r c v = elim (Bool-cases (ltb budget (body_size r))) [
  | inl big ↦ rw big (entries-drop body_size key c.held)
  | inr small ↦ rw small (fitted small)
]
  where
    absent : Dict.get key (drop body_size key c.held).entries ≡ none
    absent = ground (arith, get-drop body_size key key c.held, eq_refl key)

    again : put_last key r (drop body_size key c.held).entries ≡ put_last key r c.held.entries
    again = rw (entries-drop, put_last-remove)

    fitted :
        ltb budget (body_size r) ≡ false
        → (admit body_size budget max_entries key r (drop body_size key c.held)).entries
          ≡ newest_fitting body_size budget max_entries (put_last key r c.held.entries)
    fitted small = rw (
      admit_lem body_size budget max_entries key r (drop body_size key c.held)
          (drop-IsExact body_size key c.held v.exact) absent (ground arith) (omega arith),
      again,
    )

get-store_self :
    (budget : ℕ) (key : String) (r : Rendered) (c : RenderedCache)
    → IsValid budget c
    → body_size r ≤ budget
    → Dict.get key (store budget key r c).1.held.entries ≡ some r
unfolding store
get-store_self budget key r c v fits =
    let small : ltb budget (body_size r) ≡ false = ground arith in
    rw small (
      get-admit body_size budget max_entries key r (drop body_size key c.held)
        (drop-IsExact body_size key c.held v.exact)
        (ground (arith, get-drop body_size key key c.held, eq_refl key)) fits (omega arith))

module _ {Body : Type 0} (codec : Codec Body) (budget : ℕ) (key : String) where
  get_or_render_hit :
      (build : Unit {0} → Body) (c : RenderedCache) (r : Rendered)
      → Dict.get key c.held.entries ≡ some r
      → (get_or_render codec budget key build c).0 ≡ r
  unfolding get_or_render
  get_or_render_hit build c r h = ground arith

  store_result : (r : Rendered) (c : RenderedCache) → (store budget key r c).0 ≡ r
  unfolding store
  store_result r c = ground arith

  get_or_render_miss :
      (build : Unit {0} → Body) (c : RenderedCache)
      → Dict.get key c.held.entries ≡ none
      → get_or_render codec budget key build c
        ≡ store budget key (render codec (build tt)) (record c { misses = c.misses + 1 })
  unfolding get_or_render
  get_or_render_miss build c h = rw (h, get_or_render) (rw (h, get))

  get-get_or_render :
      (build : Unit {0} → Body) (c : RenderedCache)
      → IsValid budget c
      → body_size (render codec (build tt)) ≤ budget
      → Dict.get key (get_or_render codec budget key build c).1.held.entries
        ≡ some (get_or_render codec budget key build c).0
  unfolding get touch get_or_render
  get-get_or_render build c v fits = elim (Option-cases (Dict.get key c.held.entries)) [
    | inl e ↦
        rw (get_or_render_miss build c e, store_result)
          (get-store_self budget key (render codec (build tt)) (record c { misses = c.misses + 1 })
            (record { exact = v.exact; bounded = v.bounded }) fits)
    | inr (r, e) ↦ ground (arith, get-put_last key key r c.held.entries, eq_refl key)
  ]

  -- In a valid cache, rendering a key whose body fits the budget is done once: the next call for
  -- the key returns the same response, whatever it would have built.
  pub get_or_render_once :
      (build later : Unit {0} → Body) (c : RenderedCache)
      → IsValid budget c
      → body_size (render codec (build tt)) ≤ budget
      → (get_or_render codec budget key later (get_or_render codec budget key build c).1).0
        ≡ (get_or_render codec budget key build c).0
  get_or_render_once build later c v fits =
      get_or_render_hit later (get_or_render codec budget key build c).1
        (get_or_render codec budget key build c).0 (get-get_or_render build c v fits)
