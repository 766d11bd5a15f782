-- ===== src/ResultCache/Runs.antt =====
-- Whole uses of result_cache.py: any sequence of calls, at any times.
use fraud_analyzer_engine.Prelude.{
  ℕ, ◌≤◌, String, ◌≡◌, refl, Bool, true, false, Option, none, some, List, [], ◌∷◌, arith, any,
  Option-cases, inl, inr,
}
use fraud_analyzer_engine.Clock.{Clocks}
use fraud_analyzer_engine.Dict.{total}
use fraud_analyzer_engine.Lru.{Held}
use fraud_analyzer_engine.ResultCache.Defs.{
  CacheEntry, Caches, PayloadOps, get, get_stale, set, patch_charts, invalidate, clear,
}
use fraud_analyzer_engine.ResultCache.Bounds.{
  IsAccounted, drop-IsAccounted, drop-within, get-IsAccounted, get-within, get_stale-IsAccounted,
  get_stale-within, set-IsAccounted, set-within, patch_charts-IsAccounted,
}

-- A call of the module, with the clocks' reading where it reads them.
pub data Call (P C : Type 0) : Type 0 where
  look : Clocks → String → Call P C
  look_stale : ℕ → Clocks → String → Call P C
  keep : Clocks → String → String → P → ℕ → Call P C
  edit_charts : (List String → Option (List C)) → String → Call P C
  forget : String → Call P C
  reset : Call P C

abbrev pub is_chart_edit : {P C : Type 0} → Call P C → Bool
is_chart_edit (edit_charts build k) = true
is_chart_edit _ = false

module _ {P C : Type 0} (ops : PayloadOps P C) (budget : ℕ) where
  -- A `set` that raises changes nothing.
  kept : Option (CacheEntry P × Held (CacheEntry P)) → Caches P → Caches P
  kept none c = c
  kept (some (e, s)) c = record c { results = s }

  unfoldable pub perform : Call P C → Caches P → Caches P
  unfolding kept
  perform (look now k) c = record c { results = (get now k c.results).1 }
  perform (look_stale grace now k) c = record c { results = (get_stale grace now k c.results).1 }
  perform (keep now k h p ttl) c = kept (set ops budget now k h p ttl c.results) c
  perform (edit_charts build k) c = (patch_charts ops build k c).1
  perform (forget k) c = invalidate k c
  perform reset c = clear

  unfoldable pub run : List (Call P C) → Caches P → Caches P
  run [] c = c
  run (call ∷ calls) c = run calls (perform call c)

  perform-IsAccounted :
      (call : Call P C) (c : Caches P)
      → IsAccounted c.results
      → IsAccounted (perform call c).results
  unfolding perform clear invalidate total
  perform-IsAccounted (look now k) c a = get-IsAccounted now k c.results a
  perform-IsAccounted (look_stale grace now k) c a = get_stale-IsAccounted grace now k c.results a
  perform-IsAccounted (keep now k h p ttl) c a =
      elim (Option-cases (set ops budget now k h p ttl c.results)) [
        | inl raised ↦ rw (raised, kept) a
        | inr ((e, t), stored) ↦
            rw (stored, kept) (set-IsAccounted ops budget now k h p ttl c.results e t stored a)
      ]
  perform-IsAccounted (edit_charts build k) c a = patch_charts-IsAccounted ops build k c a
  perform-IsAccounted (forget k) c a = drop-IsAccounted k c.results a
  perform-IsAccounted reset c a = record {
    exact = record { distinct = tt; exact = refl };
    few = omega arith;
  }

  perform-within :
      (call : Call P C) (c : Caches P)
      → is_chart_edit call ≡ false
      → IsAccounted c.results
      → c.results.total_bytes ≤ budget
      → (perform call c).results.total_bytes ≤ budget
  unfolding perform clear invalidate
  perform-within (look now k) c n a w = omega (arith, get-within now k c.results)
  perform-within (look_stale grace now k) c n a w =
      omega (arith, get_stale-within grace now k c.results)
  perform-within (keep now k h p ttl) c n a w =
      elim (Option-cases (set ops budget now k h p ttl c.results)) [
        | inl raised ↦ rw (raised, kept) w
        | inr ((e, t), stored) ↦
            rw (stored, kept) (set-within ops budget now k h p ttl c.results e t stored a w)
      ]
  perform-within (edit_charts build k) c n a w = cc
  perform-within (forget k) c n a w = omega (arith, drop-within k c.results)
  perform-within reset c n a w = omega arith

  -- After any calls, chart edits included, the running total is the sum of the entries' sizes, no
  -- query has two entries, and there are at most 256.
  pub run-IsAccounted :
      (calls : List (Call P C)) (c : Caches P)
      → IsAccounted c.results
      → IsAccounted (run calls c).results
  unfolding run
  run-IsAccounted [] c a = a
  run-IsAccounted (call ∷ calls) c a =
      run-IsAccounted calls (perform call c) (perform-IsAccounted call c a)

  -- After any calls with no chart edit among them, the cache is within its byte budget if it was.
  pub run-within :
      (calls : List (Call P C)) (c : Caches P)
      → any is_chart_edit calls ≡ false
      → IsAccounted c.results
      → c.results.total_bytes ≤ budget
      → (run calls c).results.total_bytes ≤ budget
  unfolding run
  run-within [] c n a w = w
  run-within (call ∷ calls) c n a w =
      run-within calls (perform call c) (ground arith) (perform-IsAccounted call c a)
        (perform-within call c (ground arith) a w)
