-- ===== src/ItemLists/Cleaned.antt =====
-- Trimming and removing doubles changes nothing of what a list matches.
use fraud_analyzer_engine.Prelude.{
  String, ◌≡◌, refl, ap, ◌∙◌, Bool, true, false, ◌&&◌, ◌||◌, not, List, [], ◌∷◌, map, ◌==◌, texts,
  any, arith, eq_iff, Bool-cases, inl, inr,
}
use fraud_analyzer_engine.Matching.{Cell, Key, Python, has, list_key, members_from_items}
use fraud_analyzer_engine.Matching.Members.{has-members}
use fraud_analyzer_engine.Matching.Keys.{same_key_eq}
use fraud_analyzer_engine.ItemLists.Defs.{signature, same_signature, clean}

absorb : (s g m n : Bool) → (s || m) ≡ (s || n) → (g ≡ true → s ≡ true) → (s || m) ≡ (s || (g || n))
absorb s g m n h i = ground arith

reorder : (s g m n : Bool) → ((g || s) || m) ≡ ((g || s) || n) → (s || (g || m)) ≡ (s || (g || n))
reorder s g m n h = ground arith

module _ {D F : Type 0} (python : Python D F) where
  same_signature_eq : (s t : List Key) → same_signature python s t ≡ true → s ≡ t
  unfolding same_signature
  same_signature_eq [] [] h = refl
  same_signature_eq [] (k ∷ t) h = absurd (ground arith)
  same_signature_eq (j ∷ s) [] h = absurd (ground arith)
  same_signature_eq (j ∷ s) (k ∷ t) h =
      rw (same_key_eq j k (ground arith), same_signature_eq s t (ground arith)) refl

  -- What an item with this signature adds to the members: nothing, if its key is blank.
  abbrev given : List Key → Key → Bool
  given [] k = false
  given (Key.key s ∷ t) k = not (s == "") && has (Key.key s ∷ t) k
  given (j ∷ t) k = false

  has-members-given :
      (k : Key) (item : String) (items : List String)
      → has (members_from_items python (item ∷ items)) k
        ≡ (given (signature python item) k || has (members_from_items python items) k)
  unfolding signature
  has-members-given k item items = has-members python k item items

  given_seen :
      (k : Key) (s : List Key) (seen : List (List Key))
      → any (λ t. same_signature python t s) seen ≡ true
      → given s k ≡ true
      → any (λ t. given t k) seen ≡ true
  given_seen k s [] h g = absurd (ground arith)
  given_seen k s (t ∷ seen) h g = elim (Bool-cases (same_signature python t s)) [
    | inl e ↦ rw (same_signature_eq t s e) (ground arith)
    | inr e ↦ ground (arith, given_seen k s seen)
  ]

  given-blank :
      (k : Key) (value : String)
      → list_key python (Cell.text value) ≡ ""
      → given (signature python value) k ≡ false
  unfolding signature
  given-blank k value b = rw b (ground arith)

  clean-seen :
      (k : Key) (seen : List (List Key)) (items : List String)
      → list_key python (Cell.text "") ≡ ""
      → (any (λ t. given t k) seen || has (members_from_items python (clean python seen items)) k)
        ≡ (any (λ t. given t k) seen
            || has (members_from_items python (map python.py.strip items)) k)
  unfolding clean
  clean-seen k seen [] b = refl
  clean-seen k seen (raw ∷ items) b =
      let value = python.py.strip raw in
      let s = signature python value in
      let whole = has-members-given k value (map python.py.strip items) in
      let skipped = clean-seen k seen items b in
      elim (Bool-cases (value == "")) [
        | inl e ↦
            let blank : given s k ≡ false =
              given-blank k value
                (ap (λ v. list_key python (Cell.text v)) ((eq_iff value "").0 e) ∙ b) in
            rw (e, whole, blank) skipped
        | inr e ↦ elim (Bool-cases (any (λ t. same_signature python t s) seen)) [
          | inl d ↦
              rw (e, d, whole)
                (absorb (any (λ t. given t k) seen) (given s k) _ _ skipped (given_seen k s seen d))
          | inr d ↦
              rw (e, d, whole, has-members-given k value (clean python (s ∷ seen) items))
                (reorder (any (λ t. given t k) seen) (given s k) _ _
                  (clean-seen k (s ∷ seen) items b))
        ]
      ]

  -- The items that a save keeps have the same members as all of the items, trimmed.
  pub has-clean :
      (k : Key) (items : List String)
      → list_key python (Cell.text "") ≡ ""
      → has (members_from_items python (clean python [] items)) k
        ≡ has (members_from_items python (map python.py.strip items)) k
  has-clean k items b = clean-seen k [] items b
