-- ===== src/ResultCache/Lookup.antt =====
-- What a lookup in result_cache.py finds after the other operations.
use fraud_analyzer_engine.Prelude.{
  ℕ, ◌+◌, String, ◌≡◌, Bool, true, Option, none, some, List, arith, ltb, leb, Option-cases,
  Bool-cases, inl, inr, eq_refl, eq_iff, ◌==◌, texts, if◌then◌else◌,
}
use fraud_analyzer_engine.Clock.{Clocks}
use fraud_analyzer_engine.Dict
use fraud_analyzer_engine.Dict.{Dict, put_last, get-put_last}
use fraud_analyzer_engine.Lru.{Held, drop, touch, get-admit, get-drop}
use fraud_analyzer_engine.RenderedCache
use fraud_analyzer_engine.RenderedCache.Lookup.{invalidate_query-key_for}
use fraud_analyzer_engine.ResultCache.Defs.{
  CacheEntry, Caches, PayloadOps, entry_size, max_entries, is_fresh, age_ms, get, get_stale, set,
  admit_entry, patch_entry, rebuilt, patch_charts, invalidate,
}
use fraud_analyzer_engine.ResultCache.Bounds.{IsAccounted, drop-IsAccounted, set_entry, absent}

module _ {P : Type 0} where
  -- the entry, if it passes the test
  abbrev pub only_if : (CacheEntry P → Bool) → Option (CacheEntry P) → Option (CacheEntry P)
  only_if test none = none
  only_if test (some e) = if test e then some e else none

  get-touch :
      (k j : String) (e : CacheEntry P) (s : Held (CacheEntry P))
      → Dict.get k s.entries ≡ some e
      → Dict.get j (touch k e s).entries ≡ Dict.get j s.entries
  unfolding touch
  get-touch k j e s h = ground (arith, get-put_last k j e s.entries, eq_iff k j)

module _ {P : Type 0} (now : Clocks) (k : String) (s : Held (CacheEntry P)) where
  get_result : (get now k s).0 ≡ only_if (λ e. is_fresh e now) (Dict.get k s.entries)
  unfolding get
  get_result = ground arith

  entries-get : (j : String) → Dict.get j (get now k s).1.entries ≡ Dict.get j s.entries
  unfolding get
  entries-get j = elim (Option-cases (Dict.get k s.entries)) [
    | inl n ↦ rw (n, get)
    | inr (e, h) ↦ elim (Bool-cases (is_fresh e now)) [
      | inl f ↦ rw (h, get) (rw f (get-touch k j e s h))
      | inr f ↦ rw (h, get) (rw f)
    ]
  ]

  -- `get` answers with the stored entry exactly while it is fresh, and drops or changes no entry.
  pub get_lem :
      ((get now k s).0 ≡ only_if (λ e. is_fresh e now) (Dict.get k s.entries))
      × ((j : String) → Dict.get j (get now k s).1.entries ≡ Dict.get j s.entries)
  get_lem = (get_result, entries-get)

  module _ (grace : ℕ) where
    get_stale_result :
        (get_stale grace now k s).0
        ≡ only_if (λ e. leb (age_ms e now) (e.ttl_ms + grace)) (Dict.get k s.entries)
    unfolding get_stale
    get_stale_result = ground arith

    entries-get_stale :
        (j : String)
        → Dict.get j (get_stale grace now k s).1.entries ≡ (
            if k == j
            then only_if (λ e. leb (age_ms e now) (e.ttl_ms + grace)) (Dict.get k s.entries)
            else Dict.get j s.entries)
    unfolding get_stale
    entries-get_stale j = elim (Option-cases (Dict.get k s.entries)) [
      | inl n ↦ ground (arith, eq_iff k j)
      | inr (e, h) ↦ ground (arith, eq_iff k j, get-touch k j e s h, get-drop entry_size k j s)
    ]

    -- `get_stale` answers with the stored entry exactly until its age passes the interval and the
    -- grace, then drops it; entries of other queries stay.
    pub get_stale_lem :
        ((get_stale grace now k s).0
          ≡ only_if (λ e. leb (age_ms e now) (e.ttl_ms + grace)) (Dict.get k s.entries))
        × ((j : String)
            → Dict.get j (get_stale grace now k s).1.entries
              ≡ (if k == j then (get_stale grace now k s).0 else Dict.get j s.entries))
    get_stale_lem = (get_stale_result, λ j. rw get_stale_result (entries-get_stale j))

-- A `get` that misses does not hide an entry from `get_stale`, which answers as if it came first.
pub get_stale-get :
    {P : Type 0} (now : Clocks) (k : String) (s : Held (CacheEntry P)) (grace : ℕ)
    → (get_stale grace now k (get now k s).1).0 ≡ (get_stale grace now k s).0
get_stale-get now k s grace = rw (
  get_stale_result now k (get now k s).1 grace,
  get_stale_result now k s grace,
  entries-get now k s k,
)

module _ {P C : Type 0} (ops : PayloadOps P C) where
  get-admit_entry :
      (budget : ℕ) (k : String) (e : CacheEntry P) (s : Held (CacheEntry P))
      → IsAccounted s
      → Dict.get k (admit_entry ops budget k e s).entries
        ≡ (if leb e.size_bytes budget then some e else none)
  unfolding admit_entry
  get-admit_entry budget k e s a = elim (Bool-cases (ltb budget e.size_bytes)) [
    | inl big ↦ rw big (ground (arith, absent ops budget k e s a))
    | inr small ↦
        let fits : leb e.size_bytes budget ≡ true = ground arith in
        rw (small, fits)
          (get-admit entry_size budget max_entries k e (drop entry_size k s)
            (drop-IsAccounted k s a).exact (absent ops budget k e s a) (ground arith) (omega arith))
  ]

  -- Storing a payload that fits the budget makes it the answer of `get` until its interval has
  -- passed; storing one that does not leaves the query with no entry.
  pub get-set :
      (budget : ℕ) (now later : Clocks) (k data_hash : String) (p : P) (ttl_ms : ℕ)
      (s t : Held (CacheEntry P)) (e : CacheEntry P)
      → IsAccounted s
      → set ops budget now k data_hash p ttl_ms s ≡ some (e, t)
      → (get later k t).0
        ≡ (if leb e.size_bytes budget then only_if (λ f. is_fresh f later) (some e) else none)
  get-set budget now later k data_hash p ttl_ms s t e a stored =
      rw
        (
          get_result later k t,
          set_entry ops budget now k data_hash p ttl_ms s e t stored,
          get-admit_entry budget k e s a,
        )
        (ground arith)

  -- A chart edit that succeeds replaces the payload of that query's entry and its size, and leaves
  -- the entry's hash, its time of storing, its interval and every other entry as they were.
  pub get-patch_charts :
      (build : List String → Option (List C)) (k j : String) (c : Caches P) (e : CacheEntry P)
      (charts : List C) (size_bytes : ℕ)
      → Dict.get k c.results.entries ≡ some e
      → build (ops.columns e.payload) ≡ some charts
      → ops.dumps_len (ops.with_charts charts e.payload) ≡ some size_bytes
      → Dict.get j (patch_charts ops build k c).1.results.entries ≡ (
          if k == j
          then some
              (record e { payload = ops.with_charts charts e.payload; size_bytes = size_bytes })
          else Dict.get j c.results.entries)
  unfolding patch_charts
  get-patch_charts build k j c e charts size_bytes h b d =
      rw (h, patch_entry)
        (rw (b, rebuilt)
          (rw d (
            Dict.get-set k j
              (record e { payload = ops.with_charts charts e.payload; size_bytes = size_bytes })
              c.results.entries)))

-- After `invalidate` neither cache answers for the query: not `get`, not `get_stale`, and not the
-- rendered cache under any key that `key_for` makes for it. Other queries keep their results.
pub invalidate_lem :
    {P : Type 0} (now : Clocks) (grace interval : ℕ) (k j data_hash : String) (from_cache : Bool)
    (executed_at : Option String) (c : Caches P)
    → ((get now k (invalidate k c).results).0 ≡ none)
      × ((get_stale grace now k (invalidate k c).results).0 ≡ none)
      × ((RenderedCache.get
            (RenderedCache.key_for k data_hash interval from_cache executed_at)
            (invalidate k c).rendered).0
          ≡ none)
      × (Dict.get j (invalidate k c).results.entries
          ≡ (if k == j then none else Dict.get j c.results.entries))
unfolding invalidate
invalidate_lem now grace interval k j data_hash from_cache executed_at c = (
  rw (get_result now k (drop entry_size k c.results), gone),
  rw (get_stale_result now k (drop entry_size k c.results) grace, gone),
  invalidate_query-key_for k data_hash interval from_cache executed_at c.rendered,
  get-drop entry_size k j c.results,
)
  where
    gone : Dict.get k (drop entry_size k c.results).entries ≡ none
    gone = ground (arith, get-drop entry_size k k c.results, eq_refl k)
