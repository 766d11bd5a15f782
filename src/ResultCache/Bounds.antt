-- ===== src/ResultCache/Bounds.antt =====
-- Byte accounting of result_cache.py: exact through every operation, within the budget through every
-- operation but the chart edit.
use fraud_analyzer_engine.Prelude.{
  ℕ, ◌+◌, ◌≤◌, ◌<◌, String, ◌≡◌, Option, none, some, List, arith, ltb, Option-cases, Bool-cases,
  inl, inr, eq_refl, length,
}
use fraud_analyzer_engine.Clock.{Clocks}
use fraud_analyzer_engine.Dict
use fraud_analyzer_engine.Dict.{total, set-IsDistinct, total-set, length-set, measure-le-total}
use fraud_analyzer_engine.Lru.{
  Held, drop, touch, IsExact, drop-IsExact, drop-IsBounded, touch-IsExact, touch-IsBounded,
  admit-IsExact, admit-IsBounded, get-drop,
}
use fraud_analyzer_engine.ResultCache.Defs.{
  CacheEntry, Caches, PayloadOps, entry_size, max_entries, is_fresh, age_ms, get, get_stale, set,
  admit_entry, patch_entry, rebuilt, patch_charts,
}

-- The running total is the sum of the entries' sizes, over at most 256 entries.
pub record IsAccounted {P : Type 0} (s : Held (CacheEntry P)) : Type 0 where
  pub exact : IsExact entry_size s
  pub few : length s.entries ≤ max_entries

module _ {P : Type 0} where
  touch-IsAccounted :
      (k : String) (e : CacheEntry P) (s : Held (CacheEntry P))
      → Dict.get k s.entries ≡ some e
      → IsAccounted s
      → IsAccounted (touch k e s)
  touch-IsAccounted k e s h a = record {
    exact = touch-IsExact entry_size k e s h a.exact;
    few =
        (touch-IsBounded entry_size s.total_bytes max_entries k e s h a.exact.distinct
          (record { within = omega arith; few = a.few })).few;
  }

  pub drop-IsAccounted :
      (k : String) (s : Held (CacheEntry P)) → IsAccounted s → IsAccounted (drop entry_size k s)
  drop-IsAccounted k s a = record {
    exact = drop-IsExact entry_size k s a.exact;
    few =
        (drop-IsBounded entry_size s.total_bytes max_entries k s
          (record { within = omega arith; few = a.few })).few;
  }

  pub drop-within :
      (k : String) (s : Held (CacheEntry P)) → (drop entry_size k s).total_bytes ≤ s.total_bytes
  unfolding drop
  drop-within k s = ground arith

  pub get-IsAccounted :
      (now : Clocks) (k : String) (s : Held (CacheEntry P))
      → IsAccounted s
      → IsAccounted (get now k s).1
  unfolding get
  get-IsAccounted now k s a = elim (Option-cases (Dict.get k s.entries)) [
    | inl n ↦ rw (n, get) a
    | inr (e, h) ↦ elim (Bool-cases (is_fresh e now)) [
      | inl f ↦ rw (h, get) (rw f (touch-IsAccounted k e s h a))
      | inr f ↦ rw (h, get) (rw f a)
    ]
  ]

  pub get-within :
      (now : Clocks) (k : String) (s : Held (CacheEntry P))
      → (get now k s).1.total_bytes ≡ s.total_bytes
  unfolding get touch
  get-within now k s = ground arith

  pub get_stale-IsAccounted :
      (grace : ℕ) (now : Clocks) (k : String) (s : Held (CacheEntry P))
      → IsAccounted s
      → IsAccounted (get_stale grace now k s).1
  unfolding get_stale
  get_stale-IsAccounted grace now k s a = elim (Option-cases (Dict.get k s.entries)) [
    | inl n ↦ rw (n, get_stale) a
    | inr (e, h) ↦ elim (Bool-cases (ltb (e.ttl_ms + grace) (age_ms e now))) [
      | inl f ↦ rw (h, get_stale) (rw f (drop-IsAccounted k s a))
      | inr f ↦ rw (h, get_stale) (rw f (touch-IsAccounted k e s h a))
    ]
  ]

  pub get_stale-within :
      (grace : ℕ) (now : Clocks) (k : String) (s : Held (CacheEntry P))
      → (get_stale grace now k s).1.total_bytes ≤ s.total_bytes
  unfolding get_stale touch
  get_stale-within grace now k s = ground (arith, drop-within k s)

module _ {P C : Type 0} (ops : PayloadOps P C) where
  module _ (budget : ℕ) (k : String) (entry : CacheEntry P) (s : Held (CacheEntry P))
      (a : IsAccounted s) where
    pub absent : Dict.get k (drop entry_size k s).entries ≡ none
    absent = ground (arith, get-drop entry_size k k s, eq_refl k)

    admit_entry-IsAccounted : IsAccounted (admit_entry ops budget k entry s)
    unfolding admit_entry
    admit_entry-IsAccounted = elim (Bool-cases (ltb budget entry.size_bytes)) [
      | inl big ↦ rw big (drop-IsAccounted k s a)
      | inr small ↦
          let d = drop-IsAccounted k s a in
          rw small (record {
            exact =
                admit-IsExact entry_size budget max_entries k entry (drop entry_size k s) d.exact
                  absent (ground arith) (omega arith);
            few =
                (admit-IsBounded entry_size budget max_entries k entry (drop entry_size k s) d.exact
                  absent (ground arith) (omega arith)).few;
          })
    ]

    admit_entry-within :
        s.total_bytes ≤ budget → (admit_entry ops budget k entry s).total_bytes ≤ budget
    unfolding admit_entry
    admit_entry-within w = elim (Bool-cases (ltb budget entry.size_bytes)) [
      | inl big ↦ rw big (omega (arith, drop-within k s))
      | inr small ↦
          rw small
            (admit-IsBounded entry_size budget max_entries k entry (drop entry_size k s)
              (drop-IsAccounted k s a).exact absent (ground arith) (omega arith)).within
    ]

  pub set_entry :
      (budget : ℕ) (now : Clocks) (k data_hash : String) (p : P) (ttl_ms : ℕ)
      (s : Held (CacheEntry P)) (e : CacheEntry P) (t : Held (CacheEntry P))
      → set ops budget now k data_hash p ttl_ms s ≡ some (e, t)
      → t ≡ admit_entry ops budget k e s
  unfolding set
  set_entry budget now k data_hash p ttl_ms s e t h = ground arith

  module _ (budget : ℕ) (now : Clocks) (k data_hash : String) (p : P) (ttl_ms : ℕ)
      (s : Held (CacheEntry P)) (e : CacheEntry P) (t : Held (CacheEntry P))
      (stored : set ops budget now k data_hash p ttl_ms s ≡ some (e, t)) (a : IsAccounted s) where
    pub set-IsAccounted : IsAccounted t
    set-IsAccounted =
        rw (set_entry budget now k data_hash p ttl_ms s e t stored)
          (admit_entry-IsAccounted budget k e s a)

    pub set-within : s.total_bytes ≤ budget → t.total_bytes ≤ budget
    set-within w =
        rw (set_entry budget now k data_hash p ttl_ms s e t stored)
          (admit_entry-within budget k e s a w)

  patch_entry-IsAccounted :
      (build : List String → Option (List C)) (k : String) (s : Held (CacheEntry P))
      → IsAccounted s
      → IsAccounted (patch_entry ops build k (Dict.get k s.entries) s).1
  unfolding patch_entry
  patch_entry-IsAccounted build k s a = elim (Option-cases (Dict.get k s.entries)) [
    | inl n ↦ rw n a
    | inr (e, h) ↦ rw h (elim (Option-cases (rebuilt ops build e.payload)) [
      | inl raised ↦ rw (raised, patch_entry) (drop-IsAccounted k s a)
      | inr ((p, n), made) ↦
          rw (made, patch_entry)
            (record {
              exact = record {
                distinct =
                    set-IsDistinct k (record e { payload = p; size_bytes = n }) s.entries
                      a.exact.distinct;
                exact = omega (
                  arith,
                  a.exact.exact,
                  total-set entry_size k (record e { payload = p; size_bytes = n }) e s.entries h,
                  measure-le-total entry_size k e s.entries h,
                );
              };
              few = omega (
                arith,
                a.few,
                length-set k (record e { payload = p; size_bytes = n }) e s.entries h,
              );
            })
    ])
  ]

  pub patch_charts-IsAccounted :
      (build : List String → Option (List C)) (k : String) (c : Caches P)
      → IsAccounted c.results
      → IsAccounted (patch_charts ops build k c).1.results
  unfolding patch_charts
  patch_charts-IsAccounted build k c a = patch_entry-IsAccounted build k c.results a

  -- A chart edit of a stored entry evicts nothing: the total moves by the difference of the two
  -- sizes, so from an accounted cache it passes the budget whenever that difference is more than
  -- what is left of the budget.
  pub patch_charts-over_budget :
      (budget : ℕ) (build : List String → Option (List C)) (k : String) (c : Caches P)
      (e : CacheEntry P) (charts : List C) (size_bytes : ℕ)
      → IsAccounted c.results
      → Dict.get k c.results.entries ≡ some e
      → build (ops.columns e.payload) ≡ some charts
      → ops.dumps_len (ops.with_charts charts e.payload) ≡ some size_bytes
      → budget + e.size_bytes < c.results.total_bytes + size_bytes
      → budget < (patch_charts ops build k c).1.results.total_bytes
  unfolding patch_charts
  patch_charts-over_budget budget build k c e charts size_bytes a h b d over =
      rw (h, patch_entry)
        (rw (b, rebuilt)
          (rw d
            (omega (arith, a.exact.exact, measure-le-total entry_size k e c.results.entries h))))
