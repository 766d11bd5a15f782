-- ===== src/Lru/Evict.antt =====
-- The eviction loop that services/analyzer/app/features/queries/result_cache.py and
-- rendered_cache.py share, against the longest suffix that fits.
use fraud_analyzer_engine.Prelude.{
  ℕ, ◌+◌, ◌-◌, ◌≤◌, String, ◌≡◌, refl, ap, Bool, true, false, none, some, [], ◌∷◌, ◌||◌, ◌&&◌, ◌++◌,
  arith, ◌==◌, if◌then◌else◌, length, texts, eq_refl, ltb, leb,
}
use fraud_analyzer_engine.Dict.{Dict, get, total, IsDistinct, get-append, total-append}

module _ {V : Type 0} (measure : V → ℕ) (budget max_entries : ℕ) where
  -- `while _entries and (_total_bytes > budget or len(_entries) > MAX_ENTRIES)`: drop the oldest
  -- entry, and stop if it was `key`
  unfoldable pub evict : String → Dict V → ℕ → Dict V × ℕ
  evict key [] bytes = ([], bytes)
  evict key ((oldest, evicted) ∷ d) bytes =
      let rest = evict key d (bytes - measure evicted) in
      if ltb budget bytes || ltb max_entries (length d + 1)
      then (if oldest == key then (d, bytes - measure evicted) else rest)
      else ((oldest, evicted) ∷ d, bytes)

  abbrev pub fits : Dict V → Bool
  fits d = leb (total measure d) budget && leb (length d) max_entries

  -- the longest suffix that fits: the newest entries
  unfoldable pub newest_fitting : Dict V → Dict V
  newest_fitting [] = []
  newest_fitting (e ∷ d) = if fits (e ∷ d) then e ∷ d else newest_fitting d

  pub newest_fitting-total : (d : Dict V) → total measure (newest_fitting d) ≤ budget
  unfolding newest_fitting total
  newest_fitting-total [] = omega arith
  newest_fitting-total (e ∷ d) = ground (arith, newest_fitting-total d)

  pub newest_fitting-length : (d : Dict V) → length (newest_fitting d) ≤ max_entries
  unfolding newest_fitting
  newest_fitting-length [] = omega arith
  newest_fitting-length (e ∷ d) = ground (arith, newest_fitting-length d)

  pub newest_fitting-IsDistinct : (d : Dict V) → IsDistinct d → IsDistinct (newest_fitting d)
  unfolding newest_fitting
  newest_fitting-IsDistinct [] u = tt
  newest_fitting-IsDistinct (e ∷ d) u = ground (arith, newest_fitting-IsDistinct d u.1)

  -- What fits is left whole.
  pub newest_fitting_of_fits : (d : Dict V) → fits d ≡ true → newest_fitting d ≡ d
  unfolding newest_fitting
  newest_fitting_of_fits [] h = refl
  newest_fitting_of_fits (e ∷ d) h = ground arith

  -- The oldest entries go, and nothing else.
  pub newest_fitting-suffix : (d : Dict V) → (dropped : Dict V) × (d ≡ dropped ++ newest_fitting d)
  unfolding newest_fitting
  newest_fitting-suffix [] = ([], refl)
  newest_fitting-suffix (e ∷ d) =
      let (dropped, p) = newest_fitting-suffix d in suffix_step (fits (e ∷ d)) e d dropped p
    where
      suffix_step :
          (b : Bool) (e : String × V) (d dropped : Dict V)
          → d ≡ dropped ++ newest_fitting d
          → (more : Dict V) × (e ∷ d ≡ more ++ (if b then e ∷ d else newest_fitting d))
      suffix_step true e d dropped p = ([], refl)
      suffix_step false e d dropped p = (e ∷ dropped, ap (◌∷◌ e) p)

  module _ (key : String) (v : V) (small : measure v ≤ budget) (room : 1 ≤ max_entries) where
    -- An entry at the end that fits by itself is never dropped.
    pub get-newest_fitting :
        (c : Dict V) → get key c ≡ none → get key (newest_fitting (c ++ (key, v) ∷ [])) ≡ some v
    unfolding newest_fitting get total
    get-newest_fitting [] h = ground (arith, eq_refl key)
    get-newest_fitting ((j, w) ∷ c) h =
        ground (arith, eq_refl key, get-append key c ((key, v) ∷ []), get-newest_fitting c)

    -- With exact accounting the loop keeps the longest suffix that fits, and its total is exact.
    pub evict-newest_fitting :
        (c : Dict V) (bytes : ℕ)
        → get key c ≡ none
        → bytes ≡ total measure (c ++ (key, v) ∷ [])
        → evict key (c ++ (key, v) ∷ []) bytes ≡ (
          newest_fitting (c ++ (key, v) ∷ []),
          total measure (newest_fitting (c ++ (key, v) ∷ [])),
        )
    unfolding newest_fitting get evict total
    evict-newest_fitting [] bytes h e = ground arith
    evict-newest_fitting ((j, w) ∷ c) bytes h e =
        ground (
          arith,
          evict-newest_fitting c (bytes - measure w),
          total-append measure c ((key, v) ∷ []),
        )
