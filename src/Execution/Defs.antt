-- ===== src/Execution/Defs.antt =====
-- The statement, its rows up to the limit and the byte budget, and the errors on the way. The guard, the
-- connection to the target and the length of a row's JSON are a record of parameters.
use fraud_analyzer_engine.Prelude.{
  ℕ, zero, suc, ◌+◌, String, Bool, Option, none, some, List, [], ◌∷◌, map, ltb, if◌then◌else◌,
  length,
}
use fraud_analyzer_engine.Prelude.Outcome.{Outcome, ok, raise, ◌>>=◌}
use fraud_analyzer_engine.Matching.{ℤ}
use fraud_analyzer_engine.Execution.Json.{Value, Driver, to_jsonable}

pub record Limits : Type 0 where
  pub default_row_limit : ℕ
  pub max_row_limit : ℕ
  pub max_result_bytes : ℕ

-- An `AppError`: of the row limit with what was asked for, of the budget with it and the rows that were
-- within, or one that the guard or the target raised, with its code.
pub data ExecutionError : Type 0 where
  row_limit_exceeded : ℤ → ExecutionError
  result_too_large : ℕ → ℕ → ExecutionError
  refused : String → ExecutionError

-- a limit of 1 or more
unfoldable pub checked_limit : Limits → ℕ → Outcome ExecutionError ℕ
checked_limit limits n =
    if ltb limits.max_row_limit n then raise (ExecutionError.row_limit_exceeded (ℤ.pos n)) else ok n

unfoldable pub resolve_row_limit : Limits → Option ℤ → Outcome ExecutionError ℕ
unfolding checked_limit
resolve_row_limit limits none = ok limits.default_row_limit
resolve_row_limit limits (some (ℤ.negsuc n)) =
    raise (ExecutionError.row_limit_exceeded (ℤ.negsuc n))
resolve_row_limit limits (some (ℤ.pos n)) =
    if ltb n 1 then raise (ExecutionError.row_limit_exceeded (ℤ.pos n)) else checked_limit limits n

pub record ExecutionResult (J : Type 0) : Type 0 where
  pub columns : List String
  pub rows : List (List J)
  pub row_count : ℕ
  pub truncated : Bool
  pub duration_ms : ℕ

-- `xs[:n]`
abbrev pub take : {A : Type 0} → ℕ → List A → List A
take zero xs = []
take (suc n) [] = []
take (suc n) (x ∷ xs) = x ∷ take n xs

-- `validate_select`; the columns and all rows that the target has for a statement; and the length of a
-- row that `orjson.dumps` writes
pub record Target (F O : Type 0) : Type 0 where
  pub driver : Driver F O
  pub validate_select : String → Outcome ExecutionError String
  pub execute : String → Outcome ExecutionError (List String × List (List (Value F O)))
  pub dumps_len : List (Value F O) → ℕ

module _ {F O : Type 0} (target : Target F O) where
  unfoldable pub coerced : List (Value F O) → List (Value F O)
  coerced row = map (to_jsonable target.driver) row

  -- the loop: the bytes used, the number of rows so far, and the rows that are left
  unfoldable pub build_rows :
      ℕ → ℕ → ℕ → List (List (Value F O)) → Outcome ExecutionError (List (List (Value F O)))
  unfolding coerced
  build_rows budget used count [] = ok []
  build_rows budget used count (row ∷ fetched) =
      let used' = used + target.dumps_len (coerced row) in
      let rest = build_rows budget used' (suc count) fetched in
      if ltb budget used'
      then raise (ExecutionError.result_too_large budget count)
      else (rest >>= λ rows. ok (coerced row ∷ rows))

  -- `fetchmany(row_limit + 1)`, the signal of truncation, and the rows
  unfoldable pub fetch_rows :
      ℕ
      → ℕ
      → ℕ
      → List String × List (List (Value F O))
      → Outcome ExecutionError (ExecutionResult (Value F O))
  unfolding build_rows
  fetch_rows budget row_limit duration_ms (columns, all) =
      let fetched = take (suc row_limit) all in
      let truncated = ltb row_limit (length fetched) in
      build_rows budget 0 0 (if truncated then take row_limit fetched else fetched) >>= λ rows.
      ok (record {
        columns = columns;
        rows = rows;
        row_count = length rows;
        truncated = truncated;
        duration_ms = duration_ms;
      })

  unfoldable pub execute_sql :
      Limits → String → ℕ → ℕ → Outcome ExecutionError (ExecutionResult (Value F O))
  unfolding fetch_rows
  execute_sql limits sql row_limit duration_ms =
      target.validate_select sql
      >>= target.execute
      >>= fetch_rows limits.max_result_bytes row_limit duration_ms

  -- `none` where it returns
  unfoldable pub dry_run : Limits → String → ℕ → Option ExecutionError
  unfolding execute_sql
  dry_run limits sql duration_ms = elim (execute_sql limits sql 1 duration_ms) [
    | ok result ↦ none
    | raise e ↦ some e
  ]
