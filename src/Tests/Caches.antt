-- ===== src/Tests/Caches.antt =====
-- The two caches of services/analyzer/app/features/queries/ on concrete entries.
use Prim.Native.String.{◌++◌ as ◌+++◌}
use text.Mathlib.Text.{starts_with}
use fraud_analyzer_engine.Prelude.{
  length, ℕ, ◌+◌, ◌≤◌, ◌<◌, String, ◌≡◌, ◌⊎◌, refl, true, false, Option, none, some, List, [], ◌∷◌,
  arith, if◌then◌else◌, ltb, leb, ◌==◌, texts, ◌*◌,
}
use fraud_analyzer_engine.Clock.{Clocks, elapsed_ms, elapsed_ms_exact}
use fraud_analyzer_engine.Dict
use fraud_analyzer_engine.Dict.{put_last, total, IsDistinct}
use fraud_analyzer_engine.Lru.{Held, empty, evict, newest_fitting, drop, admit, touch}
use fraud_analyzer_engine.RenderedCache
use fraud_analyzer_engine.RenderedCache.{Rendered, RenderedCache, Codec, body_size, max_entries}
use fraud_analyzer_engine.ResultCache
use fraud_analyzer_engine.ResultCache.{CacheEntry, Caches, PayloadOps}

elapsed_ms_exact_example :
    (3 ≤ elapsed_ms (record { mono = 5; wall = 10 }) (record { mono = 5; wall = 4000 })
      → (3 * 1000 + 5 ≤ 5) ⊎ (3 * 1000 + 10 ≤ 4000))
    × ((3 * 1000 + 5 ≤ 5) ⊎ (3 * 1000 + 10 ≤ 4000)
        → 3 ≤ elapsed_ms (record { mono = 5; wall = 10 }) (record { mono = 5; wall = 4000 }))
elapsed_ms_exact_example =
    elapsed_ms_exact (record { mono = 5; wall = 10 }) (record { mono = 5; wall = 4000 }) 3
      (omega arith)

-- a response of three bytes, and one of two
abbrev three : Rendered
three = record { body = 1 ∷ 2 ∷ 3 ∷ []; compressed = false }

abbrev two : Rendered
two = record { body = 7 ∷ 8 ∷ []; compressed = false }

abbrev calls : List RenderedCache.Bounds.Call
calls =
    RenderedCache.Bounds.Call.keep "a|1" three
    ∷ RenderedCache.Bounds.Call.keep "b|1" two
    ∷ RenderedCache.Bounds.Call.look "a|1"
    ∷ []

-- a budget of four bytes holds one of them
rendered_run :
    (RenderedCache.Bounds.run 4 calls RenderedCache.clear).held.entries ≡ ("b|1", two) ∷ []
unfolding RenderedCache.Bounds.run RenderedCache.clear RenderedCache.get RenderedCache.store drop
    admit evict touch put_last Dict.get
rendered_run = refl

rendered_key : RenderedCache.key_for "q" "h" 5000 true none ≡ "q|h|5000|1|"
unfolding RenderedCache.key_for
rendered_key = refl

run-IsValid_example :
    RenderedCache.Bounds.IsValid 4 (RenderedCache.Bounds.run 4 calls RenderedCache.clear)
run-IsValid_example =
    RenderedCache.Bounds.run-IsValid 4 calls (RenderedCache.Bounds.clear-IsValid 4)

get-invalidate_query_example :
    (RenderedCache.get "a|1"
      (RenderedCache.invalidate_query "a" (RenderedCache.Bounds.run 9 calls RenderedCache.clear))).0
    ≡ (if starts_with "a|1" ("a" +++ "|")
        then none
        else (RenderedCache.get "a|1" (RenderedCache.Bounds.run 9 calls RenderedCache.clear)).0)
get-invalidate_query_example =
    RenderedCache.Lookup.get-invalidate_query "a" "a|1"
      (RenderedCache.Bounds.run 9 calls RenderedCache.clear)

store-newest_fitting_example :
    (RenderedCache.store 4 "b|1" two
      (RenderedCache.Bounds.run 4 calls RenderedCache.clear)).1.held.entries
    ≡ (if ltb 4 (body_size two)
        then Dict.remove "b|1" (RenderedCache.Bounds.run 4 calls RenderedCache.clear).held.entries
        else newest_fitting body_size 4 max_entries (
            put_last "b|1" two (RenderedCache.Bounds.run 4 calls RenderedCache.clear).held.entries))
store-newest_fitting_example =
    RenderedCache.Lookup.store-newest_fitting 4 "b|1" two
      (RenderedCache.Bounds.run 4 calls RenderedCache.clear) run-IsValid_example

-- a body is its own encoding
abbrev plain : Codec (List ℕ)
plain = record { dumps = λ b. b; compress = λ b. b }

get_or_render_once_example :
    (RenderedCache.get_or_render plain 4 "c"
      (λ _. 9 ∷ [])
      (RenderedCache.get_or_render plain 4 "c"
        (λ _. 5 ∷ [])
        (RenderedCache.Bounds.run 4 calls RenderedCache.clear)).1).0
    ≡ (RenderedCache.get_or_render plain 4 "c"
        (λ _. 5 ∷ [])
        (RenderedCache.Bounds.run 4 calls RenderedCache.clear)).0
unfolding RenderedCache.render
get_or_render_once_example =
    RenderedCache.Lookup.get_or_render_once plain 4 "c" (λ _. 5 ∷ []) (λ _. 9 ∷ [])
      (RenderedCache.Bounds.run 4 calls RenderedCache.clear) run-IsValid_example (omega arith)

-- a payload is its size and its charts, which are numbers
abbrev sized : PayloadOps (ℕ × List ℕ) ℕ
sized = record {
  dumps_len = λ p. some (p.0 + length p.1);
  columns = λ p. [];
  with_charts = λ charts p. (p.0, charts);
}

abbrev noon : Clocks
noon = record { mono = 1000; wall = 5000 }

abbrev stored : CacheEntry (ℕ × List ℕ)
stored = record { data_hash = "h"; payload = (3, []); stored = noon; ttl_ms = 5; size_bytes = 3 }

abbrev holding : Held (CacheEntry (ℕ × List ℕ))
holding = record { entries = ("q", stored) ∷ []; total_bytes = 3 }

holding-IsAccounted : ResultCache.Bounds.IsAccounted holding
unfolding total Dict.get
holding-IsAccounted = record {
  exact = record { distinct = (refl, tt); exact = refl };
  few = omega arith;
}

empty-IsAccounted : ResultCache.Bounds.IsAccounted {P = ℕ × List ℕ} empty
unfolding total
empty-IsAccounted = record { exact = record { distinct = tt; exact = refl }; few = omega arith }

set_stores : ResultCache.set sized 4 noon "q" "h" (3, []) 5 empty ≡ some (stored, holding)
unfolding ResultCache.set drop admit evict put_last Dict.get
set_stores = refl

get-set_example : (ResultCache.get noon "q" holding).0 ≡ (
    if leb 3 4
    then ResultCache.Lookup.only_if (λ f. ResultCache.is_fresh f noon) (some stored)
    else none)
get-set_example =
    ResultCache.Lookup.get-set sized 4 noon noon "q" "h" (3, []) 5 empty holding stored
      empty-IsAccounted set_stores

get_lem_example :
    ((ResultCache.get noon "q" holding).0
      ≡ ResultCache.Lookup.only_if
          (λ e. ResultCache.is_fresh e noon)
          (Dict.get "q" holding.entries))
    × ((j : String)
        → Dict.get j (ResultCache.get noon "q" holding).1.entries ≡ Dict.get j holding.entries)
get_lem_example = ResultCache.Lookup.get_lem noon "q" holding

get_stale_lem_example :
    ((ResultCache.get_stale 9 noon "q" holding).0
      ≡ ResultCache.Lookup.only_if
          (λ e. leb (ResultCache.age_ms e noon) (e.ttl_ms + 9))
          (Dict.get "q" holding.entries))
    × ((j : String)
        → Dict.get j (ResultCache.get_stale 9 noon "q" holding).1.entries ≡ (
            if "q" == j
            then (ResultCache.get_stale 9 noon "q" holding).0
            else Dict.get j holding.entries))
get_stale_lem_example = ResultCache.Lookup.get_stale_lem noon "q" holding 9

get_stale-get_example :
    (ResultCache.get_stale 9 noon "q" (ResultCache.get noon "q" holding).1).0
    ≡ (ResultCache.get_stale 9 noon "q" holding).0
get_stale-get_example = ResultCache.Lookup.get_stale-get noon "q" holding 9

abbrev both : Caches (ℕ × List ℕ)
both = record { results = holding; rendered = RenderedCache.Bounds.run 4 calls RenderedCache.clear }

abbrev two_charts : List String → Option (List ℕ)
two_charts _ = some (1 ∷ 2 ∷ [])

get-patch_charts_example :
    Dict.get "q" (ResultCache.patch_charts sized two_charts "q" both).1.results.entries ≡ (
      if ◌==◌ {K = String} "q" "q"
      then some (record stored { payload = (3, 1 ∷ 2 ∷ []); size_bytes = 5 })
      else Dict.get "q" holding.entries)
unfolding Dict.get
get-patch_charts_example =
    ResultCache.Lookup.get-patch_charts sized two_charts "q" "q" both stored (1 ∷ 2 ∷ []) 5 refl
      refl refl

patch_charts-over_budget_example :
    4 < (ResultCache.patch_charts sized two_charts "q" both).1.results.total_bytes
unfolding Dict.get
patch_charts-over_budget_example =
    ResultCache.Bounds.patch_charts-over_budget sized 4 two_charts "q" both stored (1 ∷ 2 ∷ []) 5
      holding-IsAccounted refl refl refl (omega arith)

invalidate_lem_example :
    ((ResultCache.get noon "q" (ResultCache.invalidate "q" both).results).0 ≡ none)
    × ((ResultCache.get_stale 9 noon "q" (ResultCache.invalidate "q" both).results).0 ≡ none)
    × ((RenderedCache.get
          (RenderedCache.key_for "q" "h" 5 true none)
          (ResultCache.invalidate "q" both).rendered).0
        ≡ none)
    × (Dict.get "p" (ResultCache.invalidate "q" both).results.entries
        ≡ (if ◌==◌ {K = String} "q" "p" then none else Dict.get "p" holding.entries))
invalidate_lem_example = ResultCache.Lookup.invalidate_lem noon 9 5 "q" "p" "h" true none both

abbrev uses : List (ResultCache.Runs.Call (ℕ × List ℕ) ℕ)
uses = ResultCache.Runs.Call.keep noon "q" "h" (3, []) 5 ∷ ResultCache.Runs.Call.look noon "q" ∷ []

result_run-IsAccounted_example :
    ResultCache.Bounds.IsAccounted (ResultCache.Runs.run sized 4 uses both).results
result_run-IsAccounted_example =
    ResultCache.Runs.run-IsAccounted sized 4 uses both holding-IsAccounted

run-within_example : (ResultCache.Runs.run sized 4 uses both).results.total_bytes ≤ 4
run-within_example =
    ResultCache.Runs.run-within sized 4 uses both refl holding-IsAccounted (omega arith)
