-- ===== src/Dict.antt =====
-- Python's `dict` and `OrderedDict` with string keys: the entries in insertion order, one to a key.
pub mod Size
use fraud_analyzer_engine.Prelude.{
  Bool, ℕ, ◌+◌, ◌≤◌, String, ◌≡◌, refl, Option, none, some, List, [], ◌∷◌, ◌++◌, arith, eq_iff,
  ◌==◌, if◌then◌else◌, length, texts, eq_refl,
}

abbrev pub Dict {ℓ} : Type ℓ → Type ℓ
Dict V = List (String × V)

module _ {ℓ} {V : Type ℓ} where
  -- `d.get(k)`
  unfoldable pub get : String → Dict V → Option V
  get k [] = none
  get k ((j, v) ∷ d) = if j == k then some v else get k d

  -- `d.pop(k, None)`, `del d[k]`
  unfoldable pub remove : String → Dict V → Dict V
  remove k [] = []
  remove k ((j, v) ∷ d) = if j == k then remove k d else (j, v) ∷ remove k d

  -- `d[k] = v`: an update in place, or a new entry at the end
  unfoldable pub set : String → V → Dict V → Dict V
  set k v [] = (k, v) ∷ []
  set k v ((j, w) ∷ d) = if j == k then (k, v) ∷ d else (j, w) ∷ set k v d

  -- `d[k] = v; d.move_to_end(k)`
  unfoldable pub put_last : String → V → Dict V → Dict V
  unfolding remove
  put_last k v d = remove k d ++ (k, v) ∷ []

  -- the sum of a measure of the values
  unfoldable pub total : (V → ℕ) → Dict V → ℕ
  total m [] = 0
  total m ((j, v) ∷ d) = m v + total m d

  -- one entry to a key
  abbrev pub IsDistinct : Dict V → Type ℓ
  IsDistinct [] = Unit
  IsDistinct ((j, v) ∷ d) = (get j d ≡ none) × IsDistinct d

  pub get-remove :
      (k j : String) (d : Dict V) → get j (remove k d) ≡ (if k == j then none else get j d)
  unfolding get remove
  get-remove k j [] = ground arith
  get-remove k j ((i, v) ∷ d) = ground (arith, get-remove k j d, eq_iff i k, eq_iff i j, eq_iff k j)

  pub get-set :
      (k j : String) (v : V) (d : Dict V) → get j (set k v d) ≡ (if k == j then some v else get j d)
  unfolding get set
  get-set k j v [] = refl
  get-set k j v ((i, w) ∷ d) = ground (arith, eq_iff k j, eq_iff i k, eq_iff i j, get-set k j v d)

  pub get-append :
      (j : String) (c d : Dict V)
      → get j (c ++ d) ≡ elim (get j c) [ none ↦ get j d | some v ↦ some v ]
  unfolding get
  get-append j [] d = refl
  get-append j ((i, v) ∷ c) d = ground (arith, get-append j c d)

  pub get-put_last :
      (k j : String) (v : V) (d : Dict V)
      → get j (put_last k v d) ≡ (if k == j then some v else get j d)
  unfolding put_last get
  get-put_last k j v d =
      ground (arith, get-append j (remove k d) ((k, v) ∷ []), get-remove k j d, eq_iff k j)

  pub total-append : (m : V → ℕ) (c d : Dict V) → total m (c ++ d) ≡ total m c + total m d
  unfolding total
  total-append m [] d = omega arith
  total-append m ((j, v) ∷ c) d = omega (arith, total-append m c d)

  pub remove_absent : (k : String) (d : Dict V) → get k d ≡ none → remove k d ≡ d
  unfolding get remove
  remove_absent k [] h = refl
  remove_absent k ((j, v) ∷ d) h = ground (arith, remove_absent k d)

  -- In a dictionary the measure falls by the measure of what is removed.
  pub total-remove :
      (m : V → ℕ) (k : String) (d : Dict V) (v : V)
      → IsDistinct d
      → get k d ≡ some v
      → total m (remove k d) + m v ≡ total m d
  unfolding get remove total
  total-remove m k [] v u h = ground arith
  total-remove m k ((j, w) ∷ d) v u h =
      ground (arith, eq_iff j k, total-remove m k d v u.1, remove_absent k d)

  pub length-remove :
      (k : String) (d : Dict V) (v : V)
      → IsDistinct d
      → get k d ≡ some v
      → length (remove k d) + 1 ≡ length d
  unfolding get remove
  length-remove k [] v u h = ground arith
  length-remove k ((j, w) ∷ d) v u h =
      ground (arith, eq_iff j k, length-remove k d v u.1, remove_absent k d)

  pub length-remove-le : (k : String) (d : Dict V) → length (remove k d) ≤ length d
  unfolding remove
  length-remove-le k [] = omega arith
  length-remove-le k ((j, w) ∷ d) = ground (arith, length-remove-le k d)

  pub remove-IsDistinct : (k : String) (d : Dict V) → IsDistinct d → IsDistinct (remove k d)
  unfolding remove
  remove-IsDistinct k [] u = tt
  remove-IsDistinct k ((j, w) ∷ d) u =
      ground (arith, eq_iff k j, get-remove k j d, remove-IsDistinct k d u.1)

  append-IsDistinct :
      (k : String) (v : V) (d : Dict V)
      → get k d ≡ none
      → IsDistinct d
      → IsDistinct (d ++ (k, v) ∷ [])
  unfolding get
  append-IsDistinct k v [] h u = (refl, tt)
  append-IsDistinct k v ((j, w) ∷ d) h u =
      ground (arith, eq_iff j k, eq_iff k j, get-append j d ((k, v) ∷ []), append-IsDistinct k v d)

  pub put_last-IsDistinct :
      (k : String) (v : V) (d : Dict V) → IsDistinct d → IsDistinct (put_last k v d)
  unfolding put_last
  put_last-IsDistinct k v d u =
      append-IsDistinct k v (remove k d) (ground (arith, get-remove k k d, eq_refl k))
        (remove-IsDistinct k d u)

  pub put_last-remove :
      (k : String) (v : V) (d : Dict V) → put_last k v (remove k d) ≡ put_last k v d
  unfolding put_last
  put_last-remove k v d =
      rw (remove_absent k (remove k d) (ground (arith, get-remove k k d, eq_refl k)))

  pub set-IsDistinct : (k : String) (v : V) (d : Dict V) → IsDistinct d → IsDistinct (set k v d)
  unfolding get set
  set-IsDistinct k v [] u = (refl, tt)
  set-IsDistinct k v ((j, w) ∷ d) u =
      ground (arith, eq_iff j k, eq_iff k j, get-set k j v d, set-IsDistinct k v d u.1)

  -- An update in place trades the measure of the old value for that of the new.
  pub total-set :
      (m : V → ℕ) (k : String) (v w : V) (d : Dict V)
      → get k d ≡ some w
      → total m (set k v d) + m w ≡ total m d + m v
  unfolding get set total
  total-set m k v w [] h = ground arith
  total-set m k v w ((j, x) ∷ d) h = ground (arith, total-set m k v w d)

  pub length-set :
      (k : String) (v w : V) (d : Dict V) → get k d ≡ some w → length (set k v d) ≡ length d
  unfolding get set
  length-set k v w [] h = ground arith
  length-set k v w ((j, x) ∷ d) h = ground (arith, length-set k v w d)

  pub measure-le-total :
      (m : V → ℕ) (k : String) (w : V) (d : Dict V) → get k d ≡ some w → m w ≤ total m d
  unfolding get total
  measure-le-total m k w [] h = ground arith
  measure-le-total m k w ((j, x) ∷ d) h = ground (arith, measure-le-total m k w d)

  pub get-none-tail :
      (k j : String) (v : V) (d : Dict V) → get k ((j, v) ∷ d) ≡ none → get k d ≡ none
  unfolding get
  get-none-tail k j v d h = ground arith

  -- `DELETE ... WHERE NOT test`: the entries that pass
  unfoldable pub keep_where : (V → Bool) → Dict V → Dict V
  keep_where test [] = []
  keep_where test ((k, v) ∷ d) = if test v then (k, v) ∷ keep_where test d else keep_where test d

  -- the entry, if it passes
  abbrev pub passing : (V → Bool) → Option V → Option V
  passing test none = none
  passing test (some v) = if test v then some v else none

  keep_where-none :
      (test : V → Bool) (k : String) (d : Dict V)
      → get k d ≡ none
      → get k (keep_where test d) ≡ none
  unfolding get keep_where
  keep_where-none test k [] h = refl
  keep_where-none test k ((j, v) ∷ d) h = ground (arith, keep_where-none test k d)

  pub get-keep_where :
      (test : V → Bool) (k : String) (d : Dict V)
      → IsDistinct d
      → get k (keep_where test d) ≡ passing test (get k d)
  unfolding get keep_where
  get-keep_where test k [] u = refl
  get-keep_where test k ((j, v) ∷ d) u =
      ground (arith, eq_iff j k, get-keep_where test k d u.1, keep_where-none test j d)

  pub keep_where-IsDistinct :
      (test : V → Bool) (d : Dict V) → IsDistinct d → IsDistinct (keep_where test d)
  unfolding keep_where
  keep_where-IsDistinct test [] u = tt
  keep_where-IsDistinct test ((j, v) ∷ d) u =
      ground (arith, keep_where-none test j d, keep_where-IsDistinct test d u.1)
