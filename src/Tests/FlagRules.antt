-- ===== src/Tests/FlagRules.antt =====
-- services/analyzer/app/features/flag_rules/engine.py and features/lists/matching.py on small results.
use Prim.Native.Nat.{Ordering, compare}
use fraud_analyzer_engine.Prelude.{
  ◌++◌, ℕ, String, ◌≡◌, refl, true, false, not, ◌&&◌, Option, none, some, List, [], ◌∷◌, arith,
  if◌then◌else◌, any, ◌==◌, texts,
}
use fraud_analyzer_engine.Prelude.Text.{PyText}
use fraud_analyzer_engine.Dict
use fraud_analyzer_engine.Matching.{
  ℤ, Cell, DecimalTuple, Python, as_number, list_key, members_from_items, is_member,
}
use fraud_analyzer_engine.Matching.Members.{item_matches, list_key-zeros, is_member-items}
use fraud_analyzer_engine.FlagRules.{
  FlagOutcome, prepare, FlagOperator, FlagSeverity, ConditionSpec, RuleSpec, FlagOutcome,
  evaluate_condition, is_null_cell, flag_row, has_conditions, evaluate, index_by_column,
}
use fraud_analyzer_engine.FlagRules.Flagged.{evaluate-flagged, flagged_by, fired_ids, holds}
use fraud_analyzer_engine.FlagRules.Counts.{counted_hits, evaluate-counted}
use fraud_analyzer_engine.FlagRules.Conditions.{
  evaluate_condition-null, evaluate_condition-opposite, evaluate_condition-between,
}

abbrev same : PyText
same = record { strip = λ s. s; lower = λ s. s; casefold = λ s. s; upper = λ s. s }

abbrev of_int : ℤ → ℕ
of_int (ℤ.pos n) = n
of_int (ℤ.negsuc n) = 0

abbrev of_text : String → Option ℕ
of_text s = if s == "5" then some 5 else if s == "9" then some 9 else none

abbrev shown : ℤ → String
shown (ℤ.pos n) = "7"
shown (ℤ.negsuc n) = "-"

-- a few naturals for decimals, and no floats
abbrev pub plain : Python ℕ (Unit {0})
plain = record {
  py = same;
  decimal_of_text = of_text;
  decimal_of_int = of_int;
  decimal_of_float = λ x. none;
  order = compare;
  as_tuple = λ n. record { negative = false; digits = n ∷ []; exponent = ℤ.pos 0 };
  str_int = shown;
  str_float = λ x. "";
}

abbrev over_five : ConditionSpec
over_five = record {
  column_name = "amount";
  operator = FlagOperator.gt;
  value = some "5";
  value2 = some "9";
  members = none;
}

abbrev pub large : RuleSpec
large = record {
  id = "r";
  name = "Large";
  severity = FlagSeverity.high;
  conditions = over_five ∷ [];
  enabled = true;
}

abbrev rows : List (List (Cell (Unit {0})))
rows =
    (Cell.text "ann" ∷ Cell.int (ℤ.pos 7) ∷ [])
    ∷ (Cell.text "bea" ∷ Cell.null ∷ [])
    ∷ (Cell.text "cid" ∷ Cell.text "9" ∷ [])
    ∷ []

evaluate-flagged_example :
    (o : FlagOutcome) × (evaluate plain (large ∷ []) ("name" ∷ "amount" ∷ []) rows ≡ some o)
    × (o.rows ≡ flagged_by plain (large ∷ []) ("name" ∷ "amount" ∷ []) 0 rows)
evaluate-flagged_example = evaluate-flagged plain (large ∷ []) ("name" ∷ "amount" ∷ []) rows refl

-- the cell of the first row is the number 7, that of the second is NULL, that of the third the text 9
flagged_rows :
    flagged_by plain (large ∷ []) ("name" ∷ "amount" ∷ []) 0 rows
    ≡ record { index = 0; rule_ids = "r" ∷ [] } ∷ record { index = 2; rule_ids = "r" ∷ [] } ∷ []
unfolding flagged_by fired_ids holds flag_row has_conditions Dict.get Dict.set index_by_column
    evaluate_condition as_number
flagged_rows = refl

evaluate_condition-null_example :
    evaluate_condition plain (record over_five { operator = FlagOperator.neq }) Cell.null ≡ false
evaluate_condition-null_example =
    evaluate_condition-null plain (record over_five { operator = FlagOperator.neq })

evaluate_condition-opposite_example :
    evaluate_condition plain (record over_five { operator = FlagOperator.lte }) (Cell.int (ℤ.pos 7))
    ≡ not (evaluate_condition plain over_five (Cell.int (ℤ.pos 7)))
unfolding is_null_cell
evaluate_condition-opposite_example =
    evaluate_condition-opposite plain over_five (Cell.int (ℤ.pos 7)) FlagOperator.lte refl refl

-- the bounds are given as 5 and 9, and 7 stands between them
evaluate_condition-between_example :
    evaluate_condition plain
      (record over_five { operator = FlagOperator.between })
      (Cell.int (ℤ.pos 7))
    ≡ (evaluate_condition plain
          (record over_five { operator = FlagOperator.gte })
          (Cell.int (ℤ.pos 7))
        && evaluate_condition plain
            (record over_five { operator = FlagOperator.lte; value = some "9" })
            (Cell.int (ℤ.pos 7)))
unfolding as_number
evaluate_condition-between_example =
    evaluate_condition-between plain over_five (Cell.int (ℤ.pos 7)) 5 9 7
      (record { flip = λ a b. ground arith; same = λ a b x e. ground arith }) refl refl refl

abbrev items : List String
items = "5" ∷ "yes" ∷ []

is_member-items_example :
    is_member plain (members_from_items plain items) (Cell.bool true)
    ≡ any
        (λ item.
          not (list_key plain (Cell.text item) == "") && item_matches plain item (Cell.bool true))
        items
is_member-items_example = is_member-items plain items (Cell.bool true)

-- decimals that are their tuples: "2" and "2.0"
abbrev tuple_of : String → Option DecimalTuple
tuple_of s =
    if s == "2"
    then some (record { negative = false; digits = 2 ∷ []; exponent = ℤ.pos 0 })
    else some (record { negative = false; digits = 2 ∷ 0 ∷ []; exponent = ℤ.negsuc 0 })

abbrev exact : Python DecimalTuple (Unit {0})
exact = record {
  py = same;
  decimal_of_text = tuple_of;
  decimal_of_int = λ i. record { negative = false; digits = []; exponent = i };
  decimal_of_float = λ x. none;
  order = λ a b. Ordering.eq;
  as_tuple = λ t. t;
  str_int = shown;
  str_float = λ x. "";
}

list_key-zeros_example : list_key exact (Cell.text "2") ≡ list_key exact (Cell.text "2.0")
unfolding as_number
list_key-zeros_example =
    list_key-zeros exact (Cell.text "2") (Cell.text "2.0")
      (record { negative = false; digits = 2 ∷ []; exponent = ℤ.pos 0 })
      (record { negative = false; digits = 2 ∷ 0 ∷ []; exponent = ℤ.negsuc 0 }) false (2 ∷ [])
      (ℤ.negsuc 0) 1 refl refl refl refl

-- the rule catches two of the three rows
abbrev caught : FlagOutcome
caught = record {
  rows = record { index = 0; rule_ids = "r" ∷ [] } ∷ record { index = 2; rule_ids = "r" ∷ [] } ∷ [];
  rules = record { id = "r"; name = "Large"; severity = FlagSeverity.high; matched = 2 } ∷ [];
  warnings = [];
}

evaluate-counted_example :
    caught.rules
    ≡ (prepare (index_by_column ("name" ∷ "amount" ∷ [])) (large ∷ [])).rules
      ++ counted_hits plain caught.rows
          (prepare (index_by_column ("name" ∷ "amount" ∷ [])) (large ∷ [])).usable
unfolding evaluate evaluate_condition as_number index_by_column Dict.get Dict.set
evaluate-counted_example =
    evaluate-counted plain (large ∷ []) ("name" ∷ "amount" ∷ []) rows caught refl
