-- ===== src/FlagRules/Flagged.antt =====
-- Which rows an evaluation flags, said without positions, counts or early ends.
use fraud_analyzer_engine.Prelude.{
  ℕ, zero, suc, ◌+◌, ◌<◌, String, ◌≡◌, refl, ◌∙◌, Bool, true, false, ◌&&◌, Option, none, some, List,
  [], ◌∷◌, arith, ◌==◌, texts, numbers, if◌then◌else◌, all, length, get_elem?, Option-cases,
  Bool-cases, inl, inr, is_some,
}
use fraud_analyzer_engine.Dict
use fraud_analyzer_engine.Dict.{Dict, get-set}
use fraud_analyzer_engine.Matching.{Cell, Python}
use fraud_analyzer_engine.FlagRules.Defs.{ConditionSpec, RuleSpec, evaluate_condition}
use fraud_analyzer_engine.FlagRules.Evaluate.{
  RowFlag, FlagOutcome, Prepared, Resolved, positions, index_by_column, resolve_conditions,
  has_conditions, prepare_rule, unusable, prepare, row_matches, hit_ids, flag_row, flag_rows,
  count_up, has_usable, outcome_of, finish, evaluate, zero_counts,
}

-- The positions of an index are below a bound.
abbrev pub IsInRange : ℕ → Dict ℕ → Type 0
IsInRange n d = (name : String) (p : ℕ) → Dict.get name d ≡ some p → p < n

positions-IsInRange :
    (i n : ℕ) (columns : List String) (d : Dict ℕ)
    → i + length columns ≡ n
    → IsInRange i d
    → IsInRange n (positions i columns d)
unfolding positions
positions-IsInRange i n [] d e h = λ name p f. ground (arith, h name p f)
positions-IsInRange i n (c ∷ columns) d e h =
    positions-IsInRange (suc i) n columns (Dict.set c i d) (omega arith)
      (λ name p f. ground (arith, get-set c name i d, h name p))

index-IsInRange : (columns : List String) → IsInRange (length columns) (index_by_column columns)
unfolding index_by_column Dict.get
index-IsInRange columns =
    positions-IsInRange 0 (length columns) columns [] (omega arith)
      (λ name p f. absurd (ground arith))

module _ {D F : Type 0} (python : Python D F) where
  -- The value of a row in a column, by its name.
  abbrev pub value_in : Dict ℕ → List (Cell F) → String → Option (Cell F)
  value_in index row name = elim (Dict.get name index) [ none ↦ none | some p ↦ get_elem? row p ]

  -- A condition holds of a row that has the column.
  unfoldable pub holds : Dict ℕ → List (Cell F) → ConditionSpec → Bool
  holds index row c = elim (value_in index row c.column_name) [
    | none ↦ false
    | some cell ↦ evaluate_condition python c cell
  ]

  -- A rule matches a row: it is enabled, and has conditions, and all of them hold.
  abbrev pub fires : Dict ℕ → List (Cell F) → RuleSpec → Bool
  fires index row rule =
      rule.enabled && has_conditions rule.conditions && all (holds index row) rule.conditions

  unfoldable pub fired_ids : Dict ℕ → List (Cell F) → List RuleSpec → List String
  fired_ids index row [] = []
  fired_ids index row (rule ∷ rules) =
      if fires index row rule
      then rule.id ∷ fired_ids index row rules
      else fired_ids index row rules

  -- The rows that some rule matches, with the rules that do, in order.
  unfoldable pub flagged_by : List RuleSpec → List String → ℕ → List (List (Cell F)) → List RowFlag
  flagged_by rules columns i [] = []
  flagged_by rules columns i (row ∷ rows) =
      flag_row python i (fired_ids (index_by_column columns) row rules)
        (flagged_by rules columns (suc i) rows)

  get_elem?-in_range :
      (row : List (Cell F)) (p : ℕ) → p < length row → is_some (get_elem? row p) ≡ true
  get_elem?-in_range [] p h = absurd (omega arith)
  get_elem?-in_range (c ∷ row) zero h = refl
  get_elem?-in_range (c ∷ row) (suc p) h = get_elem?-in_range row p (omega arith)

  abbrev none_missing : List String → Bool
  none_missing [] = true
  none_missing (n ∷ ns) = false

  resolve-missing :
      (index : Dict ℕ) (row : List (Cell F)) (cs : List ConditionSpec)
      → none_missing (resolve_conditions index cs).1 ≡ false
      → all (holds index row) cs ≡ false
  unfolding resolve_conditions holds
  resolve-missing index row [] h = ground arith
  resolve-missing index row (c ∷ cs) h = elim (Option-cases (Dict.get c.column_name index)) [
    | inl n ↦ rw (holds, n) refl
    | inr (p, f) ↦ ground (arith, resolve-missing index row cs)
  ]

  resolve-matches :
      (index : Dict ℕ) (row : List (Cell F)) (cs : List ConditionSpec)
      → IsInRange (length row) index
      → none_missing (resolve_conditions index cs).1 ≡ true
      → row_matches python row (resolve_conditions index cs).0 ≡ some (all (holds index row) cs)
  unfolding resolve_conditions row_matches holds
  resolve-matches index row [] r h = refl
  resolve-matches index row (c ∷ cs) r h = elim (Option-cases (Dict.get c.column_name index)) [
    | inl n ↦ absurd (ground arith)
    | inr (p, f) ↦ elim (Option-cases (get_elem? row p)) [
      | inl n ↦ absurd (ground (arith, get_elem?-in_range row p (r c.column_name p f)))
      | inr (cell, g) ↦ ground (arith, resolve-matches index row cs r)
    ]
  ]

  prepare_rule-usable :
      (rule : RuleSpec) (resolved : Resolved) (missing : List String) (p : Prepared)
      → (prepare_rule rule (resolved, missing) p).usable
        ≡ (if none_missing missing then (rule, resolved) ∷ p.usable else p.usable)
  unfolding prepare_rule unusable
  prepare_rule-usable rule resolved [] p = refl
  prepare_rule-usable rule resolved (name ∷ names) p = refl

  -- of a rule that is enabled and has conditions
  hit_ids-prepare_rule :
      (index : Dict ℕ) (row : List (Cell F)) (rule : RuleSpec) (p : Prepared) (ids : List String)
      → IsInRange (length row) index
      → hit_ids python p.usable row ≡ some ids
      → hit_ids python (prepare_rule rule (resolve_conditions index rule.conditions) p).usable row
        ≡ some (if all (holds index row) rule.conditions then rule.id ∷ ids else ids)
  unfolding hit_ids
  hit_ids-prepare_rule index row rule p ids r h =
      let resolved = (resolve_conditions index rule.conditions).0 in
      let missing = (resolve_conditions index rule.conditions).1 in
      elim (Bool-cases (none_missing missing)) [
        | inl m ↦
            let u : (prepare_rule rule (resolve_conditions index rule.conditions) p).usable
                ≡ (rule, resolved) ∷ p.usable =
              prepare_rule-usable rule resolved missing p ∙ ground arith in
            rw u (rw (hit_ids, resolve-matches index row rule.conditions r m, h) refl)
        | inr m ↦
            let u : (prepare_rule rule (resolve_conditions index rule.conditions) p).usable
                ≡ p.usable =
              prepare_rule-usable rule resolved missing p ∙ ground arith in
            rw u (rw (h, resolve-missing index row rule.conditions m) refl)
      ]

  -- The rules that are usable have the ids that fire.
  hit_ids-prepare :
      (index : Dict ℕ) (row : List (Cell F)) (rules : List RuleSpec)
      → IsInRange (length row) index
      → hit_ids python (prepare index rules).usable row ≡ some (fired_ids index row rules)
  unfolding hit_ids prepare prepare_rule unusable fired_ids
  hit_ids-prepare index row [] r = refl
  hit_ids-prepare index row (rule ∷ rules) r =
      let rest = hit_ids-prepare index row rules r in
      elim (Bool-cases rule.enabled) [
        | inr e ↦ simp e rest
        | inl e ↦ elim (Bool-cases (has_conditions rule.conditions)) [
          | inr c ↦ simp (e, c) rest
          | inl c ↦ simp (e, c) (hit_ids-prepare_rule index row rule (prepare index rules) _ r rest)
        ]
      ]

  flag_rows-prepare :
      (rules : List RuleSpec) (columns : List String) (i : ℕ) (rows : List (List (Cell F)))
      (counts : Dict ℕ)
      → all (λ row. length row == length columns) rows ≡ true
      → (counts' : Dict ℕ) × (flag_rows python
            (prepare (index_by_column columns) rules).usable
            i
            rows
            counts
          ≡ some (flagged_by rules columns i rows, counts'))
  unfolding flag_rows flagged_by
  flag_rows-prepare rules columns i [] counts h = (counts, refl)
  flag_rows-prepare rules columns i (row ∷ rows) counts h =
      let index = index_by_column columns in
      let same : length row ≡ length columns = ground arith in
      let r : IsInRange (length row) index = rw same (index-IsInRange columns) in
      let ids = fired_ids index row rules in
      let (counts', rest) =
        flag_rows-prepare rules columns (suc i) rows (count_up ids counts) (ground arith) in
      (counts', rw (flag_rows, hit_ids-prepare index row rules r, rest) refl)

  flag_rows-unused :
      (i : ℕ) (rows : List (List (Cell F))) (counts : Dict ℕ)
      → flag_rows python [] i rows counts ≡ some ([], counts)
  unfolding flag_rows hit_ids flag_row count_up
  flag_rows-unused i [] counts = refl
  flag_rows-unused i (row ∷ rows) counts = rw (flag_rows-unused (suc i) rows counts) refl

  unused-flagged :
      (usable : List (RuleSpec × Resolved)) (rows : List (List (Cell F))) (flagged : List RowFlag)
      (counts counts' : Dict ℕ)
      → has_usable python usable ≡ false
      → flag_rows python usable 0 rows counts ≡ some (flagged, counts')
      → [] ≡ flagged
  unfolding has_usable
  unused-flagged [] rows flagged counts counts' u f =
      ground (arith, flag_rows-unused 0 rows counts, f)
  unused-flagged (v ∷ vs) rows flagged counts counts' u f = absurd (ground arith)

  finish-flagged :
      (p : Prepared) (rows : List (List (Cell F))) (flagged : List RowFlag) (counts : Dict ℕ)
      → flag_rows python p.usable 0 rows (zero_counts p.usable []) ≡ some (flagged, counts)
      → (o : FlagOutcome) × (finish python p rows ≡ some o) × (o.rows ≡ flagged)
  unfolding finish has_usable outcome_of
  finish-flagged p rows flagged counts f = elim (Bool-cases (has_usable python p.usable)) [
    | inl u ↦ (outcome_of python p rows (flagged, counts), ground arith, refl)
    | inr u ↦ (
      record { rows = []; rules = p.rules; warnings = p.warnings },
      ground arith,
      unused-flagged p.usable rows flagged (zero_counts p.usable []) counts u f,
    )
  ]

  -- Of rows with a cell to each column an evaluation has an outcome, in which the flagged rows are
  -- those for which an enabled rule has conditions that all hold, each with the ids of the rules that
  -- do, in order.
  pub evaluate-flagged :
      (rules : List RuleSpec) (columns : List String) (rows : List (List (Cell F)))
      → all (λ row. length row == length columns) rows ≡ true
      → (o : FlagOutcome) × (evaluate python rules columns rows ≡ some o)
        × (o.rows ≡ flagged_by rules columns 0 rows)
  unfolding evaluate
  evaluate-flagged rules columns rows h =
      let p = prepare (index_by_column columns) rules in
      let (counts', f) = flag_rows-prepare rules columns 0 rows (zero_counts p.usable []) h in
      finish-flagged p rows (flagged_by rules columns 0 rows) counts' f
