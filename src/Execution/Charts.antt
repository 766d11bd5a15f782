-- ===== src/Execution/Charts.antt =====
-- The charts of a payload: `build_chart` of execution.py, and policy/chart_types.py. A threshold is of
-- a parameter type; a warning holds what its text names.
use fraud_analyzer_engine.Prelude.{
  String, ◌≡◌, refl, Bool, true, false, not, ◌&&◌, ◌||◌, Option, none, some, List, [], ◌∷◌, ◌++◌,
  map, ◌==◌, texts, if◌then◌else◌, any, all, arith,
}

pub data ChartType : Type 0 where
  line bar pie number table compare movers compare_grid heatmap stacked_bar biaxial_bar : ChartType

pub data ChartField : Type 0 where
  x_field y_field series_field : ChartField

-- `REQUIRED_FIELDS`
unfoldable pub required_fields : ChartType → List ChartField
required_fields ChartType.movers =
    ChartField.x_field ∷ ChartField.y_field ∷ ChartField.series_field ∷ []
required_fields ChartType.compare_grid =
    ChartField.x_field ∷ ChartField.y_field ∷ ChartField.series_field ∷ []
required_fields ChartType.heatmap =
    ChartField.x_field ∷ ChartField.y_field ∷ ChartField.series_field ∷ []
required_fields ChartType.biaxial_bar =
    ChartField.x_field ∷ ChartField.y_field ∷ ChartField.series_field ∷ []
required_fields ChartType.number = ChartField.y_field ∷ []
required_fields ChartType.table = []
required_fields _ = ChartField.x_field ∷ ChartField.y_field ∷ []

pub record QueryChart (T : Type 0) : Type 0 where
  pub id : String
  pub name : String
  pub chart_type : ChartType
  pub x_field : Option String
  pub y_field : Option String
  pub series_field : Option String
  pub surge_threshold_pct : Option T

pub data ChartWarning : Type 0 where
  not_in_columns : ChartField → String → ChartWarning
  not_set : ChartType → ChartField → ChartWarning

pub record BuiltChart (T : Type 0) : Type 0 where
  pub id : String
  pub name : String
  pub chart_type : ChartType
  pub x_field : Option String
  pub y_field : Option String
  pub series_field : Option String
  pub surge_threshold_pct : T
  pub warnings : List ChartWarning

-- `bool(value)`
unfoldable pub is_set : Option String → Bool
is_set none = false
is_set (some s) = not (s == "")

-- one field of the first loop
unfoldable pub column_warnings : List String → ChartField → Option String → List ChartWarning
unfolding is_set
column_warnings columns f none = []
column_warnings columns f (some value) =
    if is_set (some value) && not (any (λ c. c == value) columns)
    then ChartWarning.not_in_columns f value ∷ []
    else []

abbrev pub is_quiet : List ChartWarning → Bool
is_quiet [] = true
is_quiet (w ∷ ws) = false

-- A field is left open, or names a column of the result.
unfoldable pub is_mapped : List String → Option String → Bool
unfolding is_set
is_mapped columns none = true
is_mapped columns (some value) = value == "" || any (λ c. c == value) columns

is_quiet-append : (v w : List ChartWarning) → is_quiet (v ++ w) ≡ (is_quiet v && is_quiet w)
is_quiet-append [] w = refl
is_quiet-append (x ∷ v) w = refl

is_quiet-column :
    (columns : List String) (f : ChartField) (o : Option String)
    → is_quiet (column_warnings columns f o) ≡ is_mapped columns o
unfolding column_warnings is_mapped is_set
is_quiet-column columns f none = refl
is_quiet-column columns f (some value) = ground arith

module _ {T : Type 0} where
  -- `getattr(chart, field_name)`
  unfoldable pub field_of : ChartField → QueryChart T → Option String
  field_of ChartField.x_field chart = chart.x_field
  field_of ChartField.y_field chart = chart.y_field
  field_of ChartField.series_field chart = chart.series_field

  -- the second loop
  unfoldable pub required_warnings : QueryChart T → List ChartField → List ChartWarning
  unfolding field_of is_set
  required_warnings chart [] = []
  required_warnings chart (f ∷ fields) =
      let rest = required_warnings chart fields in
      if is_set (field_of f chart) then rest else ChartWarning.not_set chart.chart_type f ∷ rest

  unfoldable pub chart_warnings : List String → QueryChart T → List ChartWarning
  unfolding column_warnings required_warnings required_fields
  chart_warnings columns chart =
      column_warnings columns ChartField.x_field chart.x_field
      ++ column_warnings columns ChartField.y_field chart.y_field
      ++ column_warnings columns ChartField.series_field chart.series_field
      ++ required_warnings chart (required_fields chart.chart_type)

  abbrev threshold_or : T → Option T → T
  threshold_or default none = default
  threshold_or default (some t) = t

  unfoldable pub build_chart : T → List String → QueryChart T → BuiltChart T
  unfolding chart_warnings
  build_chart default columns chart = record {
    id = chart.id;
    name = chart.name;
    chart_type = chart.chart_type;
    x_field = chart.x_field;
    y_field = chart.y_field;
    series_field = chart.series_field;
    surge_threshold_pct = threshold_or default chart.surge_threshold_pct;
    warnings = chart_warnings columns chart;
  }

  unfoldable pub build_charts : T → List String → List (QueryChart T) → List (BuiltChart T)
  unfolding build_chart
  build_charts default columns charts = map (build_chart default columns) charts

  is_quiet-required :
      (chart : QueryChart T) (fields : List ChartField)
      → is_quiet (required_warnings chart fields) ≡ all (λ f. is_set (field_of f chart)) fields
  unfolding required_warnings
  is_quiet-required chart [] = refl
  is_quiet-required chart (f ∷ fields) = ground (arith, is_quiet-required chart fields)

  -- A chart is drawn without a warning just when each of its fields is left open or names a column of the
  -- result, and the fields that its type needs are set.
  pub build_chart-warnings :
      (default : T) (columns : List String) (chart : QueryChart T)
      → is_quiet (build_chart default columns chart).warnings ≡ (
          is_mapped columns chart.x_field
          && is_mapped columns chart.y_field
          && is_mapped columns chart.series_field
          && all (λ f. is_set (field_of f chart)) (required_fields chart.chart_type))
  unfolding build_chart chart_warnings
  build_chart-warnings default columns chart =
      let x = column_warnings columns ChartField.x_field chart.x_field in
      let y = column_warnings columns ChartField.y_field chart.y_field in
      let series = column_warnings columns ChartField.series_field chart.series_field in
      let required = required_warnings chart (required_fields chart.chart_type) in
      ground (
        arith,
        is_quiet-append x (y ++ series ++ required),
        is_quiet-append y (series ++ required),
        is_quiet-append series required,
        is_quiet-column columns ChartField.x_field chart.x_field,
        is_quiet-column columns ChartField.y_field chart.y_field,
        is_quiet-column columns ChartField.series_field chart.series_field,
        is_quiet-required chart (required_fields chart.chart_type),
      )
