-- ===== src/ResultCache/Defs.antt =====
-- The operations of result_cache.py, with the rendered bytes that it invalidates. `orjson.dumps`
-- measures a payload and may raise, and is a parameter; so are the settings `cache_max_bytes` and
-- `cache_stale_grace_ms`, and the reading of the clocks.
use fraud_analyzer_engine.Prelude.{
  ℕ, ◌+◌, ◌-◌, String, Bool, true, false, Option, none, some, List, ltb, if◌then◌else◌,
}
use fraud_analyzer_engine.Clock.{Clocks, elapsed_ms}
use fraud_analyzer_engine.Dict
use fraud_analyzer_engine.Lru.{Held, empty, drop, admit, touch}
use fraud_analyzer_engine.RenderedCache
use fraud_analyzer_engine.RenderedCache.{RenderedCache}

abbrev pub max_entries : ℕ
max_entries = 256

-- `stored` holds the readings `stored_at` and `stored_wall`.
pub record CacheEntry (Payload : Type 0) : Type 0 where
  pub data_hash : String
  pub payload : Payload
  pub stored : Clocks
  pub ttl_ms : ℕ
  pub size_bytes : ℕ

abbrev pub entry_size : {P : Type 0} → CacheEntry P → ℕ
entry_size e = e.size_bytes

-- What the module uses of a payload: its encoded length, `none` where `orjson.dumps` raises; its
-- columns; and the payload with another list of charts.
pub record PayloadOps (Payload Chart : Type 0) : Type 0 where
  pub dumps_len : Payload → Option ℕ
  pub columns : Payload → List String
  pub with_charts : List Chart → Payload → Payload

-- `_entries` and `_total_bytes` of this module, and the state of `rendered_cache`.
pub record Caches (Payload : Type 0) : Type 0 where
  pub results : Held (CacheEntry Payload)
  pub rendered : RenderedCache

module _ {P : Type 0} where
  unfoldable pub age_ms : CacheEntry P → Clocks → ℕ
  age_ms e now = elapsed_ms e.stored now

  unfoldable pub is_fresh : CacheEntry P → Clocks → Bool
  unfolding age_ms
  is_fresh e now = ltb (age_ms e now) e.ttl_ms

  unfoldable pub get :
      Clocks → String → Held (CacheEntry P) → Option (CacheEntry P) × Held (CacheEntry P)
  unfolding is_fresh
  get now query_id s = elim (Dict.get query_id s.entries) [
    | none ↦ (none, s)
    | some entry ↦ if is_fresh entry now then (some entry, touch query_id entry s) else (none, s)
  ]

  unfoldable pub get_stale :
      ℕ → Clocks → String → Held (CacheEntry P) → Option (CacheEntry P) × Held (CacheEntry P)
  unfolding age_ms
  get_stale grace now query_id s = elim (Dict.get query_id s.entries) [
    | none ↦ (none, s)
    | some entry ↦
        if ltb (entry.ttl_ms + grace) (age_ms entry now)
        then (none, drop entry_size query_id s)
        else (some entry, touch query_id entry s)
  ]

  -- `_drop_locked` on the results, then `rendered_cache.invalidate_query`
  unfoldable pub invalidate : String → Caches P → Caches P
  invalidate query_id c = record {
    results = drop entry_size query_id c.results;
    rendered = RenderedCache.invalidate_query query_id c.rendered;
  }

  unfoldable pub clear : Caches P
  clear = record { results = empty; rendered = RenderedCache.clear }

module _ {P C : Type 0} (ops : PayloadOps P C) where
  -- the entry of a payload that `dumps` has measured
  unfoldable pub admit_entry : ℕ → String → CacheEntry P → Held (CacheEntry P) → Held (CacheEntry P)
  admit_entry budget query_id entry s =
      let dropped = drop entry_size query_id s in
      if ltb budget entry.size_bytes
      then dropped
      else admit entry_size budget max_entries query_id entry dropped

  -- `none` where `orjson.dumps` raises, before anything is changed
  unfoldable pub set :
      ℕ
      → Clocks
      → String
      → String
      → P
      → ℕ
      → Held (CacheEntry P)
      → Option (CacheEntry P × Held (CacheEntry P))
  unfolding admit_entry
  set budget now query_id data_hash payload ttl_ms s = elim (ops.dumps_len payload) [
    | none ↦ none
    | some size_bytes ↦
        let entry : CacheEntry P = record {
          data_hash = data_hash;
          payload = payload;
          stored = now;
          ttl_ms = ttl_ms;
          size_bytes = size_bytes;
        } in
        some (entry, admit_entry budget query_id entry s)
  ]

  -- the `try` block: the new payload and its size, `none` where `build` or `dumps` raises
  unfoldable pub rebuilt : (List String → Option (List C)) → P → Option (P × ℕ)
  rebuilt build p = elim (build (ops.columns p)) [
    | none ↦ none
    | some charts ↦ elim (ops.dumps_len (ops.with_charts charts p)) [
      | none ↦ none
      | some size_bytes ↦ some (ops.with_charts charts p, size_bytes)
    ]
  ]

  unfoldable pub patch_entry :
      (List String → Option (List C))
      → String
      → Option (CacheEntry P)
      → Held (CacheEntry P)
      → Bool × Held (CacheEntry P)
  patch_entry build query_id none s = (false, s)
  patch_entry build query_id (some entry) s = elim (rebuilt build entry.payload) [
    | none ↦ (false, drop entry_size query_id s)
    | some (payload, size_bytes) ↦ (
      true,
      record {
        entries =
            Dict.set query_id (record entry { payload = payload; size_bytes = size_bytes })
              s.entries;
        total_bytes = s.total_bytes + size_bytes - entry.size_bytes;
      },
    )
  ]

  -- The assignment to the entry's fields is an update in place, which keeps the entry's position.
  unfoldable pub patch_charts :
      (List String → Option (List C)) → String → Caches P → Bool × Caches P
  unfolding patch_entry rebuilt
  patch_charts build query_id c =
      let (patched, results) =
        patch_entry build query_id (Dict.get query_id c.results.entries) c.results in
      (
        patched,
        record { results = results; rendered = RenderedCache.invalidate_query query_id c.rendered },
      )
