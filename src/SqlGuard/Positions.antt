-- ===== src/SqlGuard/Positions.antt =====
-- A scan of tokens that looks at each with the one before it and those after it, and the places
-- where it finds something.
use fraud_analyzer_engine.Prelude.{
  ◌≡◌, refl, ap, Bool, true, false, ◌||◌, Option, none, some, List, [], ◌∷◌, ◌++◌, arith, inl, inr,
  Bool-cases,
}

module _ {T : Type 0} where
  -- the last item, or what stands before the first
  unfoldable pub last_of : Option T → List T → Option T
  last_of preceding [] = preceding
  last_of preceding (t ∷ ts) = last_of (some t) ts

  pub last_of-append :
      (preceding : Option T) (before : List T) (t : T)
      → last_of preceding (before ++ t ∷ []) ≡ some t
  unfolding last_of
  last_of-append preceding [] t = refl
  last_of-append preceding (u ∷ before) t = last_of-append (some u) before t

  last_of-item :
      (u : T) (ts : List T) (t : T)
      → last_of (some u) ts ≡ some t
      → (before : List T) × (u ∷ ts ≡ before ++ t ∷ [])
  unfolding last_of
  last_of-item u [] t h = ([], cc)
  last_of-item u (v ∷ ts) t h =
      let (before, e) = last_of-item v ts t h in (u ∷ before, ap (◌∷◌ u) e)

  pub last_of-cases :
      (ts : List T) (t : T) → last_of none ts ≡ some t → (before : List T) × (ts ≡ before ++ t ∷ [])
  unfolding last_of
  last_of-cases [] t h = ground arith
  last_of-cases (u ∷ ts) t h = last_of-item u ts t h

  module _ (bad : Option T → T → List T → Bool) where
    unfoldable pub found : Option T → List T → Bool
    found preceding [] = false
    found preceding (t ∷ ts) = bad preceding t ts || found (some t) ts

    pub found-position :
        (preceding : Option T) (ts : List T)
        → found preceding ts ≡ true
        → (before : List T) × (t : T) × (after : List T) × (ts ≡ before ++ t ∷ after)
          × (bad (last_of preceding before) t after ≡ true)
    unfolding found last_of
    found-position preceding [] h = ground arith
    found-position preceding (t ∷ ts) h = elim (Bool-cases (bad preceding t ts)) [
      | inl here ↦ ([], t, ts, refl, here)
      | inr no_hit ↦
          let (before, u, after, e, b) = found-position (some t) ts (ground arith) in
          (t ∷ before, u, after, ap (◌∷◌ t) e, b)
    ]

    pub position-found :
        (preceding : Option T) (before : List T) (t : T) (after : List T)
        → bad (last_of preceding before) t after ≡ true
        → found preceding (before ++ t ∷ after) ≡ true
    unfolding found last_of
    position-found preceding [] t after h = ground arith
    position-found preceding (u ∷ before) t after h =
        ground (arith, position-found (some u) before t after)
