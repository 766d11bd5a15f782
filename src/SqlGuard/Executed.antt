-- ===== src/SqlGuard/Executed.antt =====
-- `validate_select` where `execute_sql` of features/queries/execution.py calls it.
use fraud_analyzer_engine.Prelude.{ℕ, ◌≡◌, refl, String, ◌⊎◌, inl, inr}
use fraud_analyzer_engine.Prelude.Outcome.{Outcome, ok, raise, ◌>>=◌, Outcome-cases}
use fraud_analyzer_engine.Dict.{Dict}
use fraud_analyzer_engine.Execution.{Limits, ExecutionError, Target, execute_sql, fetch_rows}
use fraud_analyzer_engine.SqlGuard.Defs.{
  Guard, SqlValidationError, empty_statement, invalid_sql, sql_too_long, multiple_statements,
  non_select_statement, forbidden_keyword, forbidden_function,
}
use fraud_analyzer_engine.SqlGuard.Validate.{validate_uncached}
use fraud_analyzer_engine.SqlGuard.Accepted.{IsAccepted, validate_uncached-IsAccepted}
use fraud_analyzer_engine.SqlGuard.Memo.{Settings, validate_select, IsReachable}
use fraud_analyzer_engine.SqlGuard.Remembered.{validate_select-validate_uncached}

-- the `ErrorCode` of each
abbrev pub error_code : SqlValidationError → String
error_code empty_statement = "EMPTY_STATEMENT"
error_code invalid_sql = "INVALID_SQL"
error_code (sql_too_long n limit) = "SQL_TOO_LONG"
error_code (multiple_statements n) = "MULTIPLE_STATEMENTS"
error_code (non_select_statement t) = "NON_SELECT_STATEMENT"
error_code (forbidden_keyword word) = "FORBIDDEN_KEYWORD"
error_code (forbidden_function name) = "FORBIDDEN_FUNCTION"

abbrev pub as_error : Outcome SqlValidationError String → Outcome ExecutionError String
as_error (ok out) = ok out
as_error (raise e) = raise (ExecutionError.refused (error_code e))

module _ {F O : Type 0} (g : Guard) (settings : Settings) (validated : Dict String) where
  -- the target behind the guard, with the memo as it stands at the call
  abbrev pub guarded : Target F O → Target F O
  guarded target = record target {
    validate_select = λ sql. as_error (validate_select g settings sql validated).0;
  }

  -- In any memo that threads can produce, a statement reaches the database only if `IsAccepted` holds
  -- of it, and then as the text that the guard returns; a text that the checks refuse is refused with
  -- their code, whatever the database holds.
  pub execute_sql-IsAccepted :
      (target : Target F O) (limits : Limits) (sql : String) (row_limit duration_ms : ℕ)
      → IsReachable g settings validated
      → ((out : String) × IsAccepted g settings.max_sql_length sql out
          × (execute_sql (guarded target) limits sql row_limit duration_ms ≡ (
              target.execute out
              >>= fetch_rows (guarded target) limits.max_result_bytes row_limit duration_ms)))
        ⊎ ((e : SqlValidationError) × (validate_uncached g settings.max_sql_length sql ≡ raise e)
            × (execute_sql (guarded target) limits sql row_limit duration_ms
                ≡ raise (ExecutionError.refused (error_code e))))
  unfolding execute_sql
  execute_sql-IsAccepted target limits sql row_limit duration_ms r =
      let same = (validate_select-validate_uncached g settings sql validated r).0 in
      elim (Outcome-cases (validate_uncached g settings.max_sql_length sql)) [
        | inl (out, v) ↦ inl (
          out,
          (validate_uncached-IsAccepted g settings.max_sql_length sql out).0 v,
          rw (same, v) refl,
        )
        | inr (e, v) ↦ inr (e, v, rw (same, v) refl)
      ]
