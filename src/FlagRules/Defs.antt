-- ===== src/FlagRules/Defs.antt =====
-- One condition against one cell.
use Prim.Native.Nat.{Ordering}
use Prim.Native.String.{compare}
use text.Mathlib.Text.{starts_with as text_starts_with}
use fraud_analyzer_engine.Prelude.{
  String, Bool, true, false, not, ◌&&◌, Option, none, some, List, [], ◌∷◌, ◌==◌, texts,
  if◌then◌else◌, any,
}
use fraud_analyzer_engine.Prelude.Text.{contains as text_contains, split}
use fraud_analyzer_engine.Matching.{
  Cell, Python, Key, as_number, as_bool, is_bool_word, is_member, same_flag,
}

pub data FlagOperator : Type 0 where
  gt gte lt lte eq neq contains not_contains starts_with in_values not_in : FlagOperator
  is_null is_not_null between in_list not_in_list : FlagOperator

pub data FlagSeverity : Type 0 where
  low medium high : FlagSeverity

pub record ConditionSpec : Type 0 where
  pub column_name : String
  pub operator : FlagOperator
  pub value : Option String
  pub value2 : Option String
  pub members : Option (List Key)

pub record RuleSpec : Type 0 where
  pub id : String
  pub name : String
  pub severity : FlagSeverity
  pub conditions : List ConditionSpec
  pub enabled : Bool

-- a value of a condition, as the functions on cells take it
abbrev pub raw : {F : Type 0} → Option String → Cell F
raw none = Cell.null
raw (some s) = Cell.text s

-- the four orders, of a three-way comparison of left with right
abbrev pub answers : FlagOperator → Ordering → Bool
answers FlagOperator.gt o = elim o [ Ordering.gt ↦ true | _ ↦ false ]
answers FlagOperator.gte o = elim o [ Ordering.lt ↦ false | _ ↦ true ]
answers FlagOperator.lt o = elim o [ Ordering.lt ↦ true | _ ↦ false ]
answers _ o = elim o [ Ordering.gt ↦ false | _ ↦ true ]

abbrev pub at_most : Ordering → Bool
at_most o = elim o [ Ordering.gt ↦ false | _ ↦ true ]

abbrev pub is_below : Ordering → Bool
is_below o = elim o [ Ordering.lt ↦ true | _ ↦ false ]

module _ {D F : Type 0} (python : Python D F) where
  unfoldable pub as_text : Cell F → String
  as_text Cell.null = ""
  as_text (Cell.bool b) = if b then "true" else "false"
  as_text (Cell.int i) = python.str_int i
  as_text (Cell.float x) = python.str_float x
  as_text (Cell.text s) = s

  strip_parts : List String → List String
  strip_parts [] = []
  strip_parts (part ∷ parts) =
      let rest = strip_parts parts in
      if python.py.strip part == "" then rest else python.py.strip part ∷ rest

  -- on commas, whose code is 44
  unfoldable pub split_list : Option String → List String
  unfolding strip_parts
  split_list none = []
  split_list (some s) = if s == "" then [] else strip_parts (split 44 s)

  abbrev pub is_bool : Cell F → Bool
  is_bool (Cell.bool b) = true
  is_bool _ = false

  -- the numbers of both, if both are numbers
  abbrev pub both : Option D → Option D → Option (D × D)
  both (some a) (some b) = some (a, b)
  both _ _ = none

  -- left against right: as numbers if both are, as texts otherwise
  unfoldable pub comparison : Cell F → Option String → Ordering
  unfolding as_text
  comparison cell expected = elim (both (as_number python cell) (as_number python (raw expected))) [
    | some (a, b) ↦ python.order a b
    | none ↦ compare (as_text cell) (as_text (raw expected))
  ]

  unfoldable pub compare_ordered : Cell F → Option String → FlagOperator → Bool
  unfolding comparison
  compare_ordered cell expected operator =
      if is_bool cell then false else answers operator (comparison cell expected)

  abbrev pub is_same : Ordering → Bool
  is_same o = elim o [ Ordering.eq ↦ true | _ ↦ false ]

  bool_equals : Bool → Option Bool → Bool
  bool_equals b expected = same_flag (some b) expected

  plain_equals : Cell F → Option String → Bool
  unfolding as_text
  plain_equals cell expected =
      elim (both (as_number python cell) (as_number python (raw expected))) [
        | some (a, b) ↦ is_same (python.order a b)
        | none ↦ as_text cell == as_text (raw expected)
      ]

  unfoldable pub equals : Cell F → Option String → Bool
  unfolding bool_equals plain_equals
  equals (Cell.bool b) expected = bool_equals b (as_bool python (raw expected))
  equals cell expected =
      if is_bool_word python cell && is_bool_word python (raw expected)
      then same_flag (as_bool python cell) (as_bool python (raw expected))
      else plain_equals cell expected

  lowered : Cell F → String
  unfolding as_text
  lowered cell = python.py.lower (as_text cell)

  -- `low <= cell <= high`, of `min` and `max`
  unfoldable pub within_numbers : D → D → D → Bool
  within_numbers a b c =
      let swapped = is_below (python.order b a) in
      let low = if swapped then b else a in
      let high = if is_below (python.order a b) then b else a in
      at_most (python.order low c) && at_most (python.order c high)

  unfoldable pub within_texts : String → String → String → Bool
  within_texts a b c =
      let swapped = is_below (compare b a) in
      let low = if swapped then b else a in
      let high = if swapped then a else b in at_most (compare low c) && at_most (compare c high)

  unfoldable pub is_between : Cell F → Option String → Option String → Bool
  unfolding within_numbers within_texts as_text
  is_between cell low_raw high_raw =
      elim (both (as_number python (raw low_raw)) (as_number python (raw high_raw))) [
        | some (a, b) ↦ elim (as_number python cell) [
          | none ↦ false
          | some c ↦ within_numbers a b c
        ]
        | none ↦ within_texts (as_text (raw low_raw)) (as_text (raw high_raw)) (as_text cell)
      ]

  unfoldable pub in_any : Cell F → Option String → Bool
  unfolding equals split_list
  in_any cell value = any (λ member. equals cell (some member)) (split_list value)

  unfoldable pub in_members : Option (List Key) → Cell F → (Bool → Bool) → Bool
  in_members none cell answer = false
  in_members (some members) cell answer = answer (is_member python members cell)

  unfoldable pub is_null_cell : Cell F → Bool
  is_null_cell Cell.null = true
  is_null_cell _ = false

  -- a cell that is not null
  unfoldable pub evaluate_present : ConditionSpec → Cell F → Bool
  unfolding compare_ordered equals in_any in_members is_between lowered is_null_cell
  evaluate_present c cell = elim c.operator [
    | FlagOperator.is_null ↦ is_null_cell cell
    | FlagOperator.is_not_null ↦ not (is_null_cell cell)
    | FlagOperator.gt ↦ compare_ordered cell c.value FlagOperator.gt
    | FlagOperator.gte ↦ compare_ordered cell c.value FlagOperator.gte
    | FlagOperator.lt ↦ compare_ordered cell c.value FlagOperator.lt
    | FlagOperator.lte ↦ compare_ordered cell c.value FlagOperator.lte
    | FlagOperator.eq ↦ equals cell c.value
    | FlagOperator.neq ↦ not (equals cell c.value)
    | FlagOperator.contains ↦ text_contains (lowered cell) (lowered (raw c.value))
    | FlagOperator.not_contains ↦ not (text_contains (lowered cell) (lowered (raw c.value)))
    | FlagOperator.starts_with ↦ text_starts_with (lowered cell) (lowered (raw c.value))
    | FlagOperator.in_values ↦ in_any cell c.value
    | FlagOperator.not_in ↦ not (in_any cell c.value)
    | FlagOperator.in_list ↦ in_members c.members cell (λ hit. hit)
    | FlagOperator.not_in_list ↦ in_members c.members cell not
    | FlagOperator.between ↦ is_between cell c.value c.value2
  ]

  unfoldable pub evaluate_condition : ConditionSpec → Cell F → Bool
  unfolding evaluate_present
  evaluate_condition c cell = elim c.operator [
    | FlagOperator.is_null ↦ is_null_cell cell
    | FlagOperator.is_not_null ↦ not (is_null_cell cell)
    | _ ↦ if is_null_cell cell then false else evaluate_present c cell
  ]
