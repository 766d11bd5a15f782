-- ===== src/FlagRules/Counts.antt =====
-- What an evaluation reports of each rule.
use fraud_analyzer_engine.Prelude.{
  ℕ, suc, ◌+◌, String, ◌≡◌, refl, sym, ap, ◌∙◌, false, some, List, [], ◌∷◌, ◌++◌, arith, ◌==◌,
  texts, numbers, if◌then◌else◌, Option-cases, Bool-cases, inl, inr, eq_iff, eq_refl,
}
use fraud_analyzer_engine.Dict
use fraud_analyzer_engine.Dict.{Dict, get-set}
use fraud_analyzer_engine.Matching.{Cell, Python}
use fraud_analyzer_engine.FlagRules.Defs.{RuleSpec}
use fraud_analyzer_engine.FlagRules.Evaluate.{
  RowFlag, RuleHit, FlagOutcome, Prepared, Resolved, hit_of, prepare, index_by_column, hit_ids,
  flag_row, flag_rows, count_up, has_usable, outcome_of, finish, evaluate, zero_counts, tally,
}

-- how often a list has an id
unfoldable pub times : String → List String → ℕ
times id [] = 0
times id (j ∷ ids) = (if j == id then 1 else 0) + times id ids

-- how often the flagged rows name a rule
unfoldable pub named_by : String → List RowFlag → ℕ
named_by id [] = 0
named_by id (flag ∷ flagged) = times id flag.rule_ids + named_by id flagged

get-count_up :
    (id : String) (n : ℕ) (ids : List String) (counts : Dict ℕ)
    → Dict.get id counts ≡ some n
    → Dict.get id (count_up ids counts) ≡ some (n + times id ids)
unfolding count_up times
get-count_up id n [] counts h = ground arith
get-count_up id n (j ∷ ids) counts h = elim (Option-cases (Dict.get j counts)) [
  | inl e ↦ ground (arith, eq_iff j id, get-count_up id n ids counts h)
  | inr (m, e) ↦ elim (Bool-cases (j == id)) [
    | inl s ↦ ground (
      arith,
      eq_iff j id,
      get-set j id (m + 1) counts,
      get-count_up id (m + 1) ids (Dict.set j (m + 1) counts),
    )
    | inr s ↦
        ground
          (arith, get-set j id (m + 1) counts, get-count_up id n ids (Dict.set j (m + 1) counts))
  ]
]

module _ {D F : Type 0} (python : Python D F) where
  named_by-flag_row :
      (id : String) (i : ℕ) (ids : List String) (flagged : List RowFlag)
      → named_by id (flag_row python i ids flagged) ≡ times id ids + named_by id flagged
  unfolding flag_row named_by times
  named_by-flag_row id i [] flagged = omega arith
  named_by-flag_row id i (j ∷ ids) flagged = refl

  get-flag_rows :
      (usable : List (RuleSpec × Resolved)) (i : ℕ) (rows : List (List (Cell F)))
      (counts counts' : Dict ℕ) (flagged : List RowFlag) (id : String) (n : ℕ)
      → flag_rows python usable i rows counts ≡ some (flagged, counts')
      → Dict.get id counts ≡ some n
      → Dict.get id counts' ≡ some (n + named_by id flagged)
  unfolding flag_rows named_by
  get-flag_rows usable i [] counts counts' flagged id n f h = ground arith
  get-flag_rows usable i (row ∷ rows) counts counts' flagged id n f h =
      elim (Option-cases (hit_ids python usable row)) [
        | inl e ↦ absurd (ground arith)
        | inr (ids, e) ↦
            elim (Option-cases (flag_rows python usable (suc i) rows (count_up ids counts))) [
              | inl g ↦ absurd (ground arith)
              | inr (rest, g) ↦ ground (
                arith,
                named_by-flag_row id i ids rest.0,
                get-flag_rows usable (suc i) rows (count_up ids counts) rest.1 rest.0 id
                    (n + times id ids) g (get-count_up id n ids counts h),
              )
            ]
      ]

  -- every usable rule stands in the table with these counts
  abbrev Counted : (String → ℕ) → Dict ℕ → List (RuleSpec × Resolved) → Type 0
  Counted n counts [] = Unit
  Counted n counts ((rule, resolved) ∷ usable) =
      (Dict.get rule.id counts ≡ some (n rule.id)) × Counted n counts usable

  get-zero_counts :
      (usable : List (RuleSpec × Resolved)) (counts : Dict ℕ) (id : String)
      → Dict.get id counts ≡ some 0
      → Dict.get id (zero_counts usable counts) ≡ some 0
  unfolding zero_counts
  get-zero_counts [] counts id h = h
  get-zero_counts ((rule, resolved) ∷ usable) counts id h =
      get-zero_counts usable (Dict.set rule.id 0 counts) id
        (ground (arith, get-set rule.id id 0 counts))

  zero_counts-Counted :
      (usable : List (RuleSpec × Resolved)) (counts : Dict ℕ)
      → Counted (λ id. 0) (zero_counts usable counts) usable
  unfolding zero_counts
  zero_counts-Counted [] counts = tt
  zero_counts-Counted ((rule, resolved) ∷ usable) counts = (
    get-zero_counts usable (Dict.set rule.id 0 counts) rule.id
        (ground (arith, get-set rule.id rule.id 0 counts, eq_refl rule.id)),
    zero_counts-Counted usable (Dict.set rule.id 0 counts),
  )

  flag_rows-Counted :
      (usable all_usable : List (RuleSpec × Resolved)) (rows : List (List (Cell F)))
      (counts counts' : Dict ℕ) (flagged : List RowFlag)
      → flag_rows python all_usable 0 rows counts ≡ some (flagged, counts')
      → Counted (λ id. 0) counts usable
      → Counted (λ id. named_by id flagged) counts' usable
  flag_rows-Counted [] all_usable rows counts counts' flagged f h = tt
  flag_rows-Counted ((rule, resolved) ∷ usable) all_usable rows counts counts' flagged f h = (
    get-flag_rows all_usable 0 rows counts counts' flagged rule.id 0 f h.0 ∙ ap some (omega arith),
    flag_rows-Counted usable all_usable rows counts counts' flagged f h.1,
  )

  -- The usable rules, each with how often the flagged rows name it.
  unfoldable pub counted_hits : List RowFlag → List (RuleSpec × Resolved) → List RuleHit
  counted_hits flagged [] = []
  counted_hits flagged ((rule, resolved) ∷ usable) =
      hit_of rule (named_by rule.id flagged) ∷ counted_hits flagged usable

  tally-counted_hits :
      (usable : List (RuleSpec × Resolved)) (rows : List (List (Cell F))) (counts : Dict ℕ)
      (flagged : List RowFlag)
      → Counted (λ id. named_by id flagged) counts usable
      → (tally python counts rows usable).0 ≡ counted_hits flagged usable
  unfolding tally counted_hits
  tally-counted_hits [] rows counts flagged h = refl
  tally-counted_hits ((rule, resolved) ∷ usable) rows counts flagged h =
      rw (h.0, tally-counted_hits usable rows counts flagged h.1) refl

  append_nil : (hits : List RuleHit) → hits ++ [] ≡ hits
  append_nil [] = refl
  append_nil (h ∷ hits) = ap (λ x. h ∷ x) (append_nil hits)

  outcome-counted :
      (p : Prepared) (rows : List (List (Cell F))) (flagged : List RowFlag) (counts : Dict ℕ)
      → flag_rows python p.usable 0 rows (zero_counts p.usable []) ≡ some (flagged, counts)
      → (outcome_of python p rows (flagged, counts)).rules
        ≡ p.rules ++ counted_hits flagged p.usable
  unfolding outcome_of
  outcome-counted p rows flagged counts f =
      ap (λ hits. p.rules ++ hits)
        (tally-counted_hits p.usable rows counts flagged (
          flag_rows-Counted p.usable p.usable rows (zero_counts p.usable []) counts flagged f
            (zero_counts-Counted p.usable [])))

  unused-counted :
      (p : Prepared) (o : FlagOutcome)
      → has_usable python p.usable ≡ false
      → o.rows ≡ []
      → o.rules ≡ p.rules
      → o.rules ≡ p.rules ++ counted_hits o.rows p.usable
  unfolding has_usable counted_hits
  unused-counted p o u e f =
      f ∙ sym (append_nil p.rules) ∙ ap (λ hits. p.rules ++ hits) (nothing p.usable u)
    where
      nothing :
          (usable : List (RuleSpec × Resolved))
          → has_usable python usable ≡ false
          → [] ≡ counted_hits o.rows usable
      nothing [] u = refl
      nothing (v ∷ vs) u = absurd (ground arith)

  finish-counted :
      (p : Prepared) (rows : List (List (Cell F))) (o : FlagOutcome)
      → finish python p rows ≡ some o
      → o.rules ≡ p.rules ++ counted_hits o.rows p.usable
  unfolding finish
  finish-counted p rows o h = elim (Bool-cases (has_usable python p.usable)) [
    | inr u ↦ unused-counted p o u (ground arith) (ground arith)
    | inl u ↦ elim (Option-cases (flag_rows python p.usable 0 rows (zero_counts p.usable []))) [
      | inl e ↦ absurd (ground arith)
      | inr (c, e) ↦
          let same : outcome_of python p rows c ≡ o = ground arith in
          rw (← same) (outcome-counted p rows c.0 c.1 e)
    ]
  ]

  -- The rules that an outcome reports: those that could not be used, with 0, then each that could,
  -- with how often the flagged rows name it.
  pub evaluate-counted :
      (rules : List RuleSpec) (columns : List String) (rows : List (List (Cell F)))
      (o : FlagOutcome)
      → evaluate python rules columns rows ≡ some o
      → o.rules
        ≡ (prepare (index_by_column columns) rules).rules
          ++ counted_hits o.rows (prepare (index_by_column columns) rules).usable
  unfolding evaluate
  evaluate-counted rules columns rows o h =
      finish-counted (prepare (index_by_column columns) rules) rows o h
