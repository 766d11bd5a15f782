-- ===== src/Execution/Flagging.antt =====
-- `evaluate_flags` of execution.py: the outcome of a query's rules with the fingerprint of each row
-- that is flagged, and what a sync then stores.
use fraud_analyzer_engine.Prelude.{
  String, Bool, true, false, not, ◌&&◌, Option, none, some, List, [], ◌∷◌, ◌==◌, texts, numbers,
  length, get_elem?,
}
use fraud_analyzer_engine.Dict
use fraud_analyzer_engine.Dict.{Dict}
use fraud_analyzer_engine.Matching.{Cell, Python}
use fraud_analyzer_engine.FlagRules.{RuleSpec, RowFlag, FlagOutcome, index_by_column, evaluate}
use fraud_analyzer_engine.FlagRules.Flagged.{fired_ids}
use fraud_analyzer_engine.Findings.{Flagged, Flags}

-- `row_fingerprint(rows[index])` where there is such a row
unfoldable pub attach : {V : Type 0} → (V → String) → List V → List RowFlag → List Flagged
attach row_fingerprint rows [] = []
attach row_fingerprint rows (row ∷ flagged) =
    record {
      index = row.index;
      rule_ids = row.rule_ids;
      fingerprint = elim (get_elem? rows row.index) [
        | none ↦ none
        | some values ↦ some (row_fingerprint values)
      ];
    }
    ∷ attach row_fingerprint rows flagged

unfoldable pub no_flags : Flags
no_flags = record {
  rows = [];
  rules = [];
  flagged_count = 0;
  dismissed_count = none;
  warnings = [];
}

unfoldable pub flags_of : {V : Type 0} → (V → String) → List V → FlagOutcome → Flags
unfolding attach
flags_of row_fingerprint rows outcome = record {
  rows = attach row_fingerprint rows outcome.rows;
  rules = outcome.rules;
  flagged_count = length outcome.rows;
  dismissed_count = none;
  warnings = outcome.warnings;
}

module _ {D F : Type 0} (python : Python D F) (row_fingerprint : List (Cell F) → String) where
  -- `none` where the evaluation raises
  unfoldable pub evaluate_flags : List RuleSpec → List String → List (List (Cell F)) → Option Flags
  unfolding flags_of no_flags
  evaluate_flags [] columns rows = some no_flags
  evaluate_flags rules columns rows = elim (evaluate python rules columns rows) [
    | none ↦ none
    | some outcome ↦ some (flags_of row_fingerprint rows outcome)
  ]

  abbrev is_nil : List String → Bool
  is_nil [] = true
  is_nil (i ∷ ids) = false

  -- Some rule matches the row, whose fingerprint this is.
  unfoldable pub is_finding : List RuleSpec → List String → String → List (Cell F) → Bool
  is_finding rules columns f row =
      not (is_nil (fired_ids python (index_by_column columns) row rules))
      && row_fingerprint row == f
