-- ===== src/FlagRules/Conditions.antt =====
-- What the sixteen comparisons say of a cell, and of each other.
use Prim.Native.Nat.{Ordering}
use fraud_analyzer_engine.Prelude.{
  ◌≡◌, refl, Bool, true, false, not, ◌&&◌, ◌||◌, Option, none, some, arith, texts, if◌then◌else◌,
  is_some,
}
use fraud_analyzer_engine.Matching.{Cell, Python, as_number}
use fraud_analyzer_engine.FlagRules.Defs.{
  FlagOperator, ConditionSpec, raw, answers, at_most, is_bool, is_null_cell, comparison,
  compare_ordered, in_members, is_between, within_numbers, evaluate_present, evaluate_condition,
}

-- the operator that says the opposite, if there is one
abbrev pub opposite : FlagOperator → Option FlagOperator
opposite FlagOperator.gt = some FlagOperator.lte
opposite FlagOperator.lte = some FlagOperator.gt
opposite FlagOperator.lt = some FlagOperator.gte
opposite FlagOperator.gte = some FlagOperator.lt
opposite FlagOperator.eq = some FlagOperator.neq
opposite FlagOperator.neq = some FlagOperator.eq
opposite FlagOperator.contains = some FlagOperator.not_contains
opposite FlagOperator.not_contains = some FlagOperator.contains
opposite FlagOperator.in_values = some FlagOperator.not_in
opposite FlagOperator.not_in = some FlagOperator.in_values
opposite FlagOperator.is_null = some FlagOperator.is_not_null
opposite FlagOperator.is_not_null = some FlagOperator.is_null
opposite FlagOperator.in_list = some FlagOperator.not_in_list
opposite FlagOperator.not_in_list = some FlagOperator.in_list
opposite FlagOperator.starts_with = none
opposite FlagOperator.between = none

abbrev pub is_null_operator : FlagOperator → Bool
is_null_operator FlagOperator.is_null = true
is_null_operator _ = false

abbrev pub is_order : FlagOperator → Bool
is_order FlagOperator.gt = true
is_order FlagOperator.gte = true
is_order FlagOperator.lt = true
is_order FlagOperator.lte = true
is_order _ = false

abbrev pub is_list : FlagOperator → Bool
is_list FlagOperator.in_list = true
is_list FlagOperator.not_in_list = true
is_list _ = false

module _ {D F : Type 0} (python : Python D F) where
  abbrev with_operator : FlagOperator → ConditionSpec → ConditionSpec
  with_operator o c = record c { operator = o }

  -- NULL satisfies `is_null` and nothing else, not `neq` and not `not_contains`.
  pub evaluate_condition-null :
      (c : ConditionSpec) → evaluate_condition python c Cell.null ≡ is_null_operator c.operator
  unfolding evaluate_condition is_null_cell
  evaluate_condition-null c =
      elim c.operator
        as (λ o.
          evaluate_condition python (record c { operator = o }) Cell.null ≡ is_null_operator o) [
            | FlagOperator.is_null ↦ refl
            | _ ↦ refl
          ]

  -- The condition has a clear answer: the cell is not NULL, nor a boolean that is to be ordered, and
  -- a named list is resolved.
  abbrev pub is_decidable : ConditionSpec → Cell F → Bool
  is_decidable c cell =
      not (is_null_cell python cell)
      && (not (is_order c.operator) || not (is_bool python cell))
      && (not (is_list c.operator) || is_some c.members)

  -- Of a cell with a clear answer each operator that has an opposite says what the opposite denies.
  pub evaluate_condition-opposite :
      (c : ConditionSpec) (cell : Cell F) (o : FlagOperator)
      → is_decidable c cell ≡ true
      → opposite c.operator ≡ some o
      → evaluate_condition python (record c { operator = o }) cell
        ≡ not (evaluate_condition python c cell)
  unfolding evaluate_condition evaluate_present compare_ordered in_members
  evaluate_condition-opposite c cell o d e = ground arith

  abbrev pub flipped : Ordering → Ordering
  flipped Ordering.lt = Ordering.gt
  flipped Ordering.eq = Ordering.eq
  flipped Ordering.gt = Ordering.lt

  -- The comparison of finite decimals can be read from either side, and equal decimals compare alike.
  pub record IsOrder : Type 0 where
    pub flip : (a b : D) → python.order b a ≡ flipped (python.order a b)
    pub same : (a b x : D) → python.order a b ≡ Ordering.eq → python.order x a ≡ python.order x b

  number-present :
      (cell : Cell F) (x : D)
      → as_number python cell ≡ some x
      → (is_null_cell python cell ≡ false) × (is_bool python cell ≡ false)
  unfolding as_number is_null_cell
  number-present Cell.null x h = absurd (ground arith)
  number-present (Cell.bool b) x h = absurd (ground arith)
  number-present (Cell.int i) x h = (refl, refl)
  number-present (Cell.float f) x h = (refl, refl)
  number-present (Cell.text s) x h = (refl, refl)

  within_numbers_lem :
      (a b x : D)
      → IsOrder
      → within_numbers python a b x ≡ (
          if at_most (python.order a b)
          then answers FlagOperator.gte (python.order x a)
            && answers FlagOperator.lte (python.order x b)
          else answers FlagOperator.gte (python.order x b)
            && answers FlagOperator.lte (python.order x a))
  unfolding within_numbers
  within_numbers_lem a b x o = ground (arith, o.flip a b, o.flip a x, o.flip b x, o.same a b x)

  -- Between two numbers is at least the smaller and at most the larger, in whichever order the bounds
  -- are given.
  pub evaluate_condition-between :
      (c : ConditionSpec) (cell : Cell F) (a b x : D)
      → IsOrder
      → as_number python cell ≡ some x
      → as_number python (raw c.value) ≡ some a
      → as_number python (raw c.value2) ≡ some b
      → evaluate_condition python (record c { operator = FlagOperator.between }) cell ≡ (
          let low = if at_most (python.order a b) then c.value else c.value2 in
          let high = if at_most (python.order a b) then c.value2 else c.value in
          evaluate_condition python (record c { operator = FlagOperator.gte; value = low }) cell
          && evaluate_condition python
              (record c { operator = FlagOperator.lte; value = high })
              cell)
  unfolding evaluate_condition evaluate_present compare_ordered comparison is_between
  evaluate_condition-between c cell a b x o h p q =
      let (present, plain) = number-present cell x h in ground (arith, within_numbers_lem a b x o)
