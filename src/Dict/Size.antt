-- ===== src/Dict/Size.antt =====
-- The size of a dictionary is a matter of its keys.
use fraud_analyzer_engine.Prelude.{
  String, ◌≡◌, refl, true, false, none, some, [], ◌∷◌, ◌++◌, arith, eq_iff, eq_refl, ◌==◌,
  if◌then◌else◌, length, texts, is_some, Option-cases, inl, inr,
}
use fraud_analyzer_engine.Dict.{
  Dict, IsDistinct, get, remove, get-remove, get-append, remove-IsDistinct, length-remove,
}

no_keys {ℓ} : {V : Type ℓ} (d : Dict V) → ((k : String) → is_some (get k d) ≡ false) → d ≡ []
unfolding get
no_keys [] h = refl
no_keys ((j, v) ∷ d) h = absurd (ground (arith, h j, eq_refl j))

module _ {ℓ} {V W : Type ℓ} where
  -- Dictionaries of the same keys have as many entries.
  pub length-same_keys :
      (c : Dict W) (d : Dict V)
      → IsDistinct c
      → IsDistinct d
      → ((k : String) → is_some (get k d) ≡ is_some (get k c))
      → length d ≡ length c
  unfolding get
  length-same_keys [] d u w h = rw (no_keys d h) refl
  length-same_keys ((j, x) ∷ c) d u w h = elim (Option-cases (get j d)) [
    | inl n ↦ absurd (ground (arith, h j, eq_refl j))
    | inr (v, e) ↦ ground (
      arith,
      length-remove j d v w e,
      length-same_keys c (remove j d) u.1 (remove-IsDistinct j d w)
          (λ k. same_without j x c d u.0 k (h k)),
    )
  ]
    where
      same_without :
          (j : String) (x : W) (c : Dict W) (d : Dict V)
          → get j c ≡ none
          → (k : String) → is_some (get k d) ≡ is_some (if j == k then some x else get k c)
          → is_some (get k (remove j d)) ≡ is_some (get k c)
      same_without j x c d n k e = ground (arith, get-remove j k d, eq_iff j k)

-- Dictionaries that share no key make one.
pub append-IsDistinct_lem {ℓ} :
    {V : Type ℓ} (c d : Dict V)
    → IsDistinct c
    → IsDistinct d
    → ((k : String) → is_some (get k c) ≡ true → get k d ≡ none)
    → IsDistinct (c ++ d)
unfolding get
append-IsDistinct_lem {V} [] d u w h = w
append-IsDistinct_lem {V} ((j, v) ∷ c) d u w h = (
  ground (arith, get-append j c d, u.0, h j, eq_refl j),
  append-IsDistinct_lem c d u.1 w (λ k e. apart j v c d u.0 k e (h k)),
)
  where
    apart :
        (j : String) (v : V) (c d : Dict V)
        → get j c ≡ none
        → (k : String) → is_some (get k c) ≡ true
        → (is_some (if j == k then some v else get k c) ≡ true → get k d ≡ none)
        → get k d ≡ none
    apart j v c d n k e f = ground (arith, eq_iff j k)
