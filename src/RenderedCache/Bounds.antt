-- ===== src/RenderedCache/Bounds.antt =====
-- Byte accounting and both bounds of rendered_cache.py, through every operation.
use fraud_analyzer_engine.Prelude.{
  ℕ, String, ◌≡◌, refl, none, List, [], ◌∷◌, arith, ltb, Option-cases, Bool-cases, inl, inr,
}
use Prim.Native.String.{◌++◌ as ◌+++◌}
use fraud_analyzer_engine.Dict
use fraud_analyzer_engine.Dict.{total, get-remove}
use fraud_analyzer_engine.Prelude.{eq_refl}
use fraud_analyzer_engine.Lru.{
  Held, drop, IsExact, IsBounded, drop-IsExact, drop-IsBounded, touch-IsExact, touch-IsBounded,
  admit-IsExact, admit-IsBounded, get-drop,
}
use fraud_analyzer_engine.RenderedCache.Defs.{
  Rendered, RenderedCache, body_size, max_entries, get, store, matching_keys, drop_keys,
  invalidate_query, clear,
}

-- The running total is the sum of the bodies, within the budget, over at most 256 entries.
pub record IsValid (budget : ℕ) (c : RenderedCache) : Type 0 where
  pub exact : IsExact body_size c.held
  pub bounded : IsBounded budget max_entries c.held

module _ (budget : ℕ) where
  pub get-IsValid :
      (key : String) (c : RenderedCache) → IsValid budget c → IsValid budget (get key c).1
  unfolding get
  get-IsValid key c v = elim (Option-cases (Dict.get key c.held.entries)) [
    | inl e ↦ rw (e, get) (record { exact = v.exact; bounded = v.bounded })
    | inr (r, e) ↦
        rw (e, get)
          (record {
            exact = touch-IsExact body_size key r c.held e v.exact;
            bounded =
                touch-IsBounded body_size budget max_entries key r c.held e v.exact.distinct
                  v.bounded;
          })
  ]

  pub drop-IsValid :
      (key : String) (s : Held Rendered)
      → IsExact body_size s × IsBounded budget max_entries s
      → IsExact body_size (drop body_size key s)
        × IsBounded budget max_entries (drop body_size key s)
  drop-IsValid key s v =
      (drop-IsExact body_size key s v.0, drop-IsBounded body_size budget max_entries key s v.1)

  pub drop_keys-IsValid :
      (ks : List String) (s : Held Rendered)
      → IsExact body_size s × IsBounded budget max_entries s
      → IsExact body_size (drop_keys ks s) × IsBounded budget max_entries (drop_keys ks s)
  unfolding drop_keys
  drop_keys-IsValid [] s v = v
  drop_keys-IsValid (k ∷ ks) s v = drop_keys-IsValid ks (drop body_size k s) (drop-IsValid k s v)

  pub store-IsValid :
      (key : String) (r : Rendered) (c : RenderedCache)
      → IsValid budget c
      → IsValid budget (store budget key r c).1
  unfolding store
  store-IsValid key r c v =
      let (x, b) = drop-IsValid key c.held (v.exact, v.bounded) in
      elim (Bool-cases (ltb budget (body_size r))) [
        | inl big ↦ rw big (record { exact = x; bounded = b })
        | inr small ↦
            let absent : Dict.get key (drop body_size key c.held).entries ≡ none =
              ground (arith, get-drop body_size key key c.held, eq_refl key) in
            rw small (record {
              exact =
                  admit-IsExact body_size budget max_entries key r (drop body_size key c.held) x
                    absent (ground arith) (omega arith);
              bounded =
                  admit-IsBounded body_size budget max_entries key r (drop body_size key c.held) x
                    absent (ground arith) (omega arith);
            })
      ]

  pub invalidate_query-IsValid :
      (query_id : String) (c : RenderedCache)
      → IsValid budget c
      → IsValid budget (invalidate_query query_id c)
  unfolding invalidate_query
  invalidate_query-IsValid query_id c v =
      let (x, b) =
        drop_keys-IsValid (matching_keys (query_id +++ "|") c.held.entries) c.held
          (v.exact, v.bounded) in
      record { exact = x; bounded = b }

  pub clear-IsValid : IsValid budget clear
  unfolding clear total
  clear-IsValid = record {
    exact = record { distinct = tt; exact = refl };
    bounded = record { within = omega arith; few = omega arith };
  }

-- A call of the module.
pub data Call : Type 0 where
  look : String → Call
  keep : String → Rendered → Call
  invalidate : String → Call
  reset : Call

unfoldable pub perform : ℕ → Call → RenderedCache → RenderedCache
perform budget (look key) c = (get key c).1
perform budget (keep key r) c = (store budget key r c).1
perform budget (invalidate q) c = invalidate_query q c
perform budget reset c = clear

unfoldable pub run : ℕ → List Call → RenderedCache → RenderedCache
unfolding perform
run budget [] c = c
run budget (call ∷ calls) c = run budget calls (perform budget call c)

-- However the cache is used from an empty start, the recorded total is the sum of the stored bodies,
-- it is within the budget, no key is stored twice, and at most 256 entries are held.
pub run-IsValid :
    (budget : ℕ) (calls : List Call) {c : RenderedCache}
    → IsValid budget c
    → IsValid budget (run budget calls c)
unfolding run
run-IsValid budget [] v = v
run-IsValid budget (look key ∷ calls) {c} v = run-IsValid budget calls (get-IsValid budget key c v)
run-IsValid budget (keep key r ∷ calls) {c} v =
    run-IsValid budget calls (store-IsValid budget key r c v)
run-IsValid budget (invalidate q ∷ calls) {c} v =
    run-IsValid budget calls (invalidate_query-IsValid budget q c v)
run-IsValid budget (reset ∷ calls) v = run-IsValid budget calls (clear-IsValid budget)
