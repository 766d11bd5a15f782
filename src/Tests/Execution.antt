-- ===== src/Tests/Execution.antt =====
-- services/analyzer/app/features/queries/execution.py on a small target.
use fraud_analyzer_engine.Prelude.{
  ℕ, suc, ◌≤◌, ◌<◌, String, ◌≡◌, refl, true, ◌&&◌, none, some, List, [], ◌∷◌, arith, all, ◌==◌,
  texts, numbers,
}
use fraud_analyzer_engine.Prelude.Outcome.{ok, raise}
use fraud_analyzer_engine.Dict
use fraud_analyzer_engine.Matching.{ℤ, Cell}
use fraud_analyzer_engine.Execution.{
  Limits, ExecutionError, Target, execute_sql, resolve_row_limit, take,
}
use fraud_analyzer_engine.Execution.Json.{Key, Value, Items, Driver, to_jsonable, is_json}
use fraud_analyzer_engine.Execution.Wire.{to_jsonable_lem}
use fraud_analyzer_engine.Execution.Bounded.{execute_sql-ok, execute_sql-raise, bytes, first_rows}
use fraud_analyzer_engine.Execution.Charts.{
  ChartType, QueryChart, build_chart, build_chart-warnings, is_quiet, is_mapped, is_set, field_of,
  required_fields,
}

-- floats are numbers of which 0 stands for NaN, and objects are texts
abbrev pub driver : Driver ℕ String
driver = record { is_nonfinite = λ n. n == 0; str = λ s. s; isoformat = λ s. s; base64 = λ s. s }

-- {"a": NaN, 1: date, "a": 5.0}
abbrev mixed : Value ℕ String
mixed = Value.dict (
    Items.item (Key.name "a") (Value.float 0) (
      Items.item (Key.object "1") (Value.date "2026-01-01")
        (Items.item (Key.name "a") (Value.float 5) Items.end)))

mixed_on_the_wire :
    to_jsonable driver mixed
    ≡ Value.dict (
        Items.item
          (Key.name "a")
          (Value.float 5)
          (Items.item (Key.name "1") (Value.text "2026-01-01") Items.end))
unfolding to_jsonable
mixed_on_the_wire = refl

to_jsonable_lem_example :
    (is_json driver (to_jsonable driver mixed) ≡ true)
    × (to_jsonable driver (to_jsonable driver mixed) ≡ to_jsonable driver mixed)
to_jsonable_lem_example = to_jsonable_lem driver mixed

abbrev pub all_rows : List (List (Value ℕ String))
all_rows = (Value.float 0 ∷ []) ∷ (Value.bool true ∷ []) ∷ (Value.null ∷ []) ∷ []

-- three rows, of four bytes each
abbrev pub target : Target ℕ String
target = record {
  driver = driver;
  validate_select = λ sql. ok sql;
  execute = λ sql. ok ("c" ∷ [], all_rows);
  dumps_len = λ row. 4;
}

abbrev limits : ℕ → Limits
limits budget = record { default_row_limit = 10; max_row_limit = 20; max_result_bytes = budget }

past_the_ceiling :
    resolve_row_limit (limits 8) (some (ℤ.pos 21))
    ≡ raise (ExecutionError.row_limit_exceeded (ℤ.pos 21))
unfolding resolve_row_limit
past_the_ceiling = refl

execute_sql-ok_example :
    (execute_sql target (limits 8) "SELECT" 2 5 ≡ ok (first_rows target 2 5 ("c" ∷ []) all_rows))
    × ((first_rows target 2 5 ("c" ∷ []) all_rows).row_count ≤ 2)
unfolding bytes
execute_sql-ok_example =
    execute_sql-ok target (limits 8) "SELECT" "SELECT" 2 5 ("c" ∷ []) all_rows refl refl
      (omega arith)

execute_sql-raise_example :
    (n : ℕ) × (execute_sql target (limits 5) "SELECT" 2 5
      ≡ raise (ExecutionError.result_too_large 5 n))
    × (bytes target (take n (take 2 all_rows)) ≤ 5)
    × (5 < bytes target (take (suc n) (take 2 all_rows)))
unfolding bytes
execute_sql-raise_example =
    execute_sql-raise target (limits 5) "SELECT" "SELECT" 2 5 ("c" ∷ []) all_rows refl refl
      (omega arith)

abbrev one_cell : List (Cell (Unit {0})) → String
one_cell (Cell.text s ∷ []) = s
one_cell row = "?"

abbrev amounts : List (List (Cell (Unit {0})))
amounts = (Cell.text "5" ∷ []) ∷ (Cell.text "9" ∷ []) ∷ []

abbrev drawn : QueryChart ℕ
drawn = record {
  id = "k";
  name = "trend";
  chart_type = ChartType.line;
  x_field = some "day";
  y_field = none;
  series_field = none;
  surge_threshold_pct = none;
}

build_chart-warnings_example : is_quiet (build_chart 20 ("day" ∷ []) drawn).warnings ≡ (
    is_mapped ("day" ∷ []) (some "day")
    && is_mapped ("day" ∷ []) none
    && is_mapped ("day" ∷ []) none
    && all (λ f. is_set (field_of f drawn)) (required_fields ChartType.line))
build_chart-warnings_example = build_chart-warnings 20 ("day" ∷ []) drawn
