-- ===== src/FlagRules/Evaluate.antt =====
-- All rules against all rows. `none` stands for the IndexError of a row that is too short. The texts
-- of the warnings are values that hold what the texts are made of.
use fraud_analyzer_engine.Prelude.{
  ℕ, suc, ◌+◌, String, Bool, true, false, not, ◌&&◌, ◌||◌, Option, none, some, List, [], ◌∷◌, ◌++◌,
  ◌==◌, texts, numbers, if◌then◌else◌, any, get_elem?, is_some,
}
use fraud_analyzer_engine.Dict
use fraud_analyzer_engine.Dict.{Dict}
use fraud_analyzer_engine.Matching.{Cell, Python, as_bool, is_bool_word}
use fraud_analyzer_engine.FlagRules.Defs.{
  FlagOperator, FlagSeverity, ConditionSpec, RuleSpec, raw, is_bool, evaluate_condition,
}

pub record RowFlag : Type 0 where
  pub index : ℕ
  pub rule_ids : List String

pub record RuleHit : Type 0 where
  pub id : String
  pub name : String
  pub severity : FlagSeverity
  pub matched : ℕ

pub data Warning : Type 0 where
  no_conditions : String → Warning
  missing_columns : String → List String → Warning
  matched_nothing : String → Option (String × Option String) → Warning

pub record FlagOutcome : Type 0 where
  pub rows : List RowFlag
  pub rules : List RuleHit
  pub warnings : List Warning

abbrev pub Resolved : Type 0
Resolved = List (ConditionSpec × ℕ)

-- `{name: position for position, name in enumerate(columns)}`: of two columns of one name, the last
unfoldable pub positions : ℕ → List String → Dict ℕ → Dict ℕ
positions i [] d = d
positions i (name ∷ columns) d = positions (suc i) columns (Dict.set name i d)

unfoldable pub index_by_column : List String → Dict ℕ
unfolding positions
index_by_column columns = positions 0 columns []

-- the conditions with their positions, and the names that are missing
unfoldable pub resolve_conditions : Dict ℕ → List ConditionSpec → Resolved × List String
resolve_conditions index [] = ([], [])
resolve_conditions index (c ∷ cs) =
    let (resolved, missing) = resolve_conditions index cs in
    elim (Dict.get c.column_name index) [
      | none ↦ (resolved, c.column_name ∷ missing)
      | some position ↦ ((c, position) ∷ resolved, missing)
    ]

-- What is made of the rules before a row is looked at.
pub record Prepared : Type 0 where
  pub usable : List (RuleSpec × Resolved)
  pub rules : List RuleHit
  pub warnings : List Warning

unfoldable pub hit_of : RuleSpec → ℕ → RuleHit
hit_of rule matched = record {
  id = rule.id;
  name = rule.name;
  severity = rule.severity;
  matched = matched;
}

unfoldable pub unusable : RuleSpec → Warning → Prepared → Prepared
unfolding hit_of
unusable rule warning p = record p {
  rules = hit_of rule 0 ∷ p.rules;
  warnings = warning ∷ p.warnings;
}

-- a rule with a condition, of which these are resolved and these missing
unfoldable pub prepare_rule : RuleSpec → Resolved × List String → Prepared → Prepared
unfolding unusable
prepare_rule rule (resolved, []) p = record p { usable = (rule, resolved) ∷ p.usable }
prepare_rule rule (resolved, name ∷ names) p =
    unusable rule (missing_columns rule.name (name ∷ names)) p

unfoldable pub has_conditions : List ConditionSpec → Bool
has_conditions [] = false
has_conditions (c ∷ cs) = true

unfoldable pub prepare : Dict ℕ → List RuleSpec → Prepared
unfolding prepare_rule has_conditions resolve_conditions unusable
prepare index [] = record { usable = []; rules = []; warnings = [] }
prepare index (rule ∷ rules) =
    let p = prepare index rules in
    if not rule.enabled
    then p
    else if not (has_conditions rule.conditions)
    then unusable rule (no_conditions rule.name) p
    else prepare_rule rule (resolve_conditions index rule.conditions) p

-- `matched_counts[id] += 1` for each id
unfoldable pub count_up : List String → Dict ℕ → Dict ℕ
count_up [] counts = counts
count_up (id ∷ ids) counts =
    count_up ids (elim (Dict.get id counts) [ none ↦ counts | some n ↦ Dict.set id (n + 1) counts ])

unfoldable pub zero_counts : List (RuleSpec × Resolved) → Dict ℕ → Dict ℕ
zero_counts [] counts = counts
zero_counts ((rule, resolved) ∷ usable) counts = zero_counts usable (Dict.set rule.id 0 counts)

module _ {D F : Type 0} (python : Python D F) where
  -- `all(...)`, which stops at the first condition that fails
  unfoldable pub row_matches : List (Cell F) → Resolved → Option Bool
  row_matches row [] = some true
  row_matches row ((c, position) ∷ resolved) =
      let rest = row_matches row resolved in
      elim (get_elem? row position) [
        | none ↦ none
        | some cell ↦ if evaluate_condition python c cell then rest else some false
      ]

  abbrev pub add_hit : String → Bool → Option (List String) → Option (List String)
  add_hit id hit none = none
  add_hit id hit (some ids) = some (if hit then id ∷ ids else ids)

  -- the ids of the rules that match a row
  unfoldable pub hit_ids : List (RuleSpec × Resolved) → List (Cell F) → Option (List String)
  unfolding row_matches
  hit_ids [] row = some []
  hit_ids ((rule, resolved) ∷ usable) row =
      let rest = hit_ids usable row in
      elim (row_matches row resolved) [ none ↦ none | some hit ↦ add_hit rule.id hit rest ]

  unfoldable pub flag_row : ℕ → List String → List RowFlag → List RowFlag
  flag_row i [] flagged = flagged
  flag_row i (id ∷ ids) flagged = record { index = i; rule_ids = id ∷ ids } ∷ flagged

  abbrev pub before_flagged :
      ℕ → List String → Option (List RowFlag × Dict ℕ) → Option (List RowFlag × Dict ℕ)
  before_flagged i ids none = none
  before_flagged i ids (some (flagged, counts)) = some (flag_row i ids flagged, counts)

  -- the flagged rows from the `i`th on, and the counts after them
  unfoldable pub flag_rows :
      List (RuleSpec × Resolved)
      → ℕ
      → List (List (Cell F))
      → Dict ℕ
      → Option (List RowFlag × Dict ℕ)
  unfolding hit_ids flag_row count_up
  flag_rows usable i [] counts = some ([], counts)
  flag_rows usable i (row ∷ rows) counts = elim (hit_ids usable row) [
    | none ↦ none
    | some ids ↦ before_flagged i ids (flag_rows usable (suc i) rows (count_up ids counts))
  ]

  abbrev pub or_zero : Option ℕ → ℕ
  or_zero none = 0
  or_zero (some n) = n

  is_present : Cell F → Bool
  is_present Cell.null = false
  is_present _ = true

  -- the cells of a column that are not null
  column_cells : ℕ → List (List (Cell F)) → List (Cell F)
  unfolding is_present
  column_cells position [] = []
  column_cells position (row ∷ rows) =
      let rest = column_cells position rows in
      elim (get_elem? row position) [
        | none ↦ rest
        | some cell ↦ if is_present cell then cell ∷ rest else rest
      ]

  is_boolean_test : ConditionSpec → Bool
  is_boolean_test c =
      elim c.operator [ FlagOperator.eq ↦ true | FlagOperator.neq ↦ true | _ ↦ false ]
      && is_some (as_bool python (raw c.value))

  has_cells : List (Cell F) → Bool
  has_cells [] = false
  has_cells (c ∷ cs) = true

  -- the first comparison with true or false of a column that holds neither
  why_nothing_matched : Resolved → List (List (Cell F)) → Option (String × Option String)
  unfolding is_boolean_test has_cells column_cells
  why_nothing_matched [] rows = none
  why_nothing_matched ((c, position) ∷ resolved) rows =
      let rest = why_nothing_matched resolved rows in
      let column = column_cells position rows in
      if is_boolean_test c
        && has_cells column
        && not (any (λ cell. is_bool python cell || is_bool_word python cell) column)
      then some (c.column_name, c.value)
      else rest

  unfoldable pub tally :
      Dict ℕ → List (List (Cell F)) → List (RuleSpec × Resolved) → List RuleHit × List Warning
  unfolding hit_of why_nothing_matched
  tally counts rows [] = ([], [])
  tally counts rows ((rule, resolved) ∷ usable) =
      let (hits, warnings) = tally counts rows usable in
      let matched = or_zero (Dict.get rule.id counts) in
      (
        hit_of rule matched ∷ hits,
        if matched == 0
            then matched_nothing rule.name (why_nothing_matched resolved rows) ∷ warnings
            else warnings,
      )

  unfoldable pub has_usable : List (RuleSpec × Resolved) → Bool
  has_usable [] = false
  has_usable (u ∷ us) = true

  unfoldable pub outcome_of : Prepared → List (List (Cell F)) → List RowFlag × Dict ℕ → FlagOutcome
  unfolding tally
  outcome_of p rows (flagged, counts) =
      let (hits, warnings) = tally counts rows p.usable in
      record { rows = flagged; rules = p.rules ++ hits; warnings = p.warnings ++ warnings }

  unfoldable pub finish : Prepared → List (List (Cell F)) → Option FlagOutcome
  unfolding has_usable outcome_of flag_rows zero_counts
  finish p rows =
      if not (has_usable p.usable)
      then some (record { rows = []; rules = p.rules; warnings = p.warnings })
      else elim (flag_rows p.usable 0 rows (zero_counts p.usable [])) [
        | none ↦ none
        | some counted ↦ some (outcome_of p rows counted)
      ]

  unfoldable pub evaluate : List RuleSpec → List String → List (List (Cell F)) → Option FlagOutcome
  unfolding finish prepare index_by_column
  evaluate rules columns rows = finish (prepare (index_by_column columns) rules) rows
