-- ===== src/Lru/Bounds.antt =====
-- The byte total is exact and both bounds hold, whatever is dropped, admitted or touched.
use fraud_analyzer_engine.Prelude.{
  ℕ, ◌+◌, ◌≤◌, String, ◌≡◌, refl, ap, none, some, [], ◌∷◌, arith, eq_iff, eq_refl, ◌==◌, texts,
  if◌then◌else◌, length, length-append, Option-cases, inl, inr,
}
use fraud_analyzer_engine.Dict.{
  Dict, get, remove, put_last, total, IsDistinct, get-remove, total-append, total-remove,
  length-remove, length-remove-le, remove_absent, remove-IsDistinct, put_last-IsDistinct,
}
use fraud_analyzer_engine.Lru.Evict.{
  newest_fitting, newest_fitting-total, newest_fitting-length, newest_fitting-IsDistinct,
  get-newest_fitting, evict-newest_fitting,
}
use fraud_analyzer_engine.Lru.Defs.{Held, drop, admit, touch}

-- One entry to a key, and a running total that is the sum of the sizes.
pub record IsExact {V : Type 0} (measure : V → ℕ) (s : Held V) : Type 0 where
  pub distinct : IsDistinct s.entries
  pub exact : s.total_bytes ≡ total measure s.entries

-- The two bounds.
pub record IsBounded {V : Type 0} (budget max_entries : ℕ) (s : Held V) : Type 0 where
  pub within : s.total_bytes ≤ budget
  pub few : length s.entries ≤ max_entries

module _ {V : Type 0} (measure : V → ℕ) where
  pub get-drop :
      (k j : String) (s : Held V)
      → get j (drop measure k s).entries ≡ (if k == j then none else get j s.entries)
  unfolding drop
  get-drop k j s = ground (arith, eq_iff k j, get-remove k j s.entries)

  pub entries-drop : (k : String) (s : Held V) → (drop measure k s).entries ≡ remove k s.entries
  unfolding drop
  entries-drop k s = ground (arith, remove_absent k s.entries)

  pub drop-IsExact :
      (k : String) (s : Held V) → IsExact measure s → IsExact measure (drop measure k s)
  unfolding drop
  drop-IsExact k s x = elim (Option-cases (get k s.entries)) [
    | inl e ↦ rw (e, drop) x
    | inr (v, e) ↦
        rw (e, drop)
          (record {
            distinct = remove-IsDistinct k s.entries x.distinct;
            exact = omega (arith, x.exact, total-remove measure k s.entries v x.distinct e);
          })
  ]

  pub drop-IsBounded :
      (budget max_entries : ℕ) (k : String) (s : Held V)
      → IsBounded budget max_entries s
      → IsBounded budget max_entries (drop measure k s)
  unfolding drop
  drop-IsBounded budget max_entries k s b =
      ground (arith, b.within, b.few, length-remove-le k s.entries)

  pub touch-IsExact :
      (k : String) (v : V) (s : Held V)
      → get k s.entries ≡ some v
      → IsExact measure s
      → IsExact measure (touch k v s)
  unfolding touch put_last total
  touch-IsExact k v s e x = record {
    distinct = put_last-IsDistinct k v s.entries x.distinct;
    exact = omega (
      arith,
      x.exact,
      total-remove measure k s.entries v x.distinct e,
      total-append measure (remove k s.entries) ((k, v) ∷ []),
    );
  }

  pub touch-IsBounded :
      (budget max_entries : ℕ) (k : String) (v : V) (s : Held V)
      → get k s.entries ≡ some v
      → IsDistinct s.entries
      → IsBounded budget max_entries s
      → IsBounded budget max_entries (touch k v s)
  unfolding touch put_last
  touch-IsBounded budget max_entries k v s e u b = record {
    within = b.within;
    few = omega (
      arith,
      b.few,
      length-remove k s.entries v u e,
      length-append (remove k s.entries) ((k, v) ∷ []),
    );
  }

  module _ (budget max_entries : ℕ) (k : String) (v : V) (s : Held V) (x : IsExact measure s)
      (absent : get k s.entries ≡ none) (small : measure v ≤ budget) (room : 1 ≤ max_entries) where
    abbrev kept : Dict V
    kept = newest_fitting measure budget max_entries (put_last k v s.entries)

    -- What is admitted and kept is the longest suffix that fits, with its exact total.
    pub admit_lem :
        admit measure budget max_entries k v s
        ≡ record { entries = kept; total_bytes = total measure kept }
    unfolding admit put_last total
    admit_lem = rw (
        evict-newest_fitting measure budget max_entries k v small room (remove k s.entries)
          (s.total_bytes + measure v) (ground (arith, get-remove k k s.entries, eq_refl k))
          (omega (
            arith,
            x.exact,
            total-append measure (remove k s.entries) ((k, v) ∷ []),
            ap (total measure) (remove_absent k s.entries absent),
          )))

    pub admit-IsExact : IsExact measure (admit measure budget max_entries k v s)
    admit-IsExact = rw admit_lem (record {
      distinct =
          newest_fitting-IsDistinct measure budget max_entries (put_last k v s.entries)
            (put_last-IsDistinct k v s.entries x.distinct);
      exact = refl;
    })

    pub admit-IsBounded : IsBounded budget max_entries (admit measure budget max_entries k v s)
    admit-IsBounded = rw admit_lem (record {
      within = newest_fitting-total measure budget max_entries (put_last k v s.entries);
      few = newest_fitting-length measure budget max_entries (put_last k v s.entries);
    })

    pub get-admit : get k (admit measure budget max_entries k v s).entries ≡ some v
    unfolding put_last
    get-admit = rw admit_lem (
        get-newest_fitting measure budget max_entries k v small room (remove k s.entries)
          (ground (arith, get-remove k k s.entries, eq_refl k)))
