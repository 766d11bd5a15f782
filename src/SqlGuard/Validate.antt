-- ===== src/SqlGuard/Validate.antt =====
-- `_validate_uncached`: the checks of a text in the order that they are made.
use Prim.Native.String as Str
use fraud_analyzer_engine.Prelude.{
  ℕ, String, Bool, not, ◌||◌, List, [], ◌∷◌, ltb, ◌==◌, texts, numbers, if◌then◌else◌, length,
}
use fraud_analyzer_engine.Prelude.Outcome.{Outcome, ok, raise, ◌>>=◌}
use fraud_analyzer_engine.Prelude.Text.{rstrip_chars, strip_chars}
use fraud_analyzer_engine.SqlGuard.Policy.{is_in}
use fraud_analyzer_engine.SqlGuard.Defs.{
  Statement, ParseFailure, Guard, SqlValidationError, empty_statement, invalid_sql, sql_too_long,
  multiple_statements, non_select_statement,
}
use fraud_analyzer_engine.SqlGuard.Defs.{check_unambiguous_lexing}
use fraud_analyzer_engine.SqlGuard.Checks.{check_keywords, check_functions, check_locking_clause}

unfoldable pub is_semicolon : ℕ → Bool
is_semicolon c = c == b';'

-- `_parsed` around a call of sqlparse
unfoldable pub parsed : {A : Type 0} → Outcome ParseFailure A → Outcome SqlValidationError A
parsed (ok a) = ok a
parsed (raise e) = raise invalid_sql

abbrev pub only : List Statement → Outcome SqlValidationError Statement
only [] = raise empty_statement
only (statement ∷ []) = ok statement
only statements = raise (multiple_statements (length statements))

module _ (g : Guard) where
  -- `text.strip().rstrip(";").strip()`
  unfoldable pub cleaned : String → String
  unfolding is_semicolon
  cleaned text = g.py.strip (rstrip_chars is_semicolon (g.py.strip text))

  -- the statements that are more than white space and semicolons
  unfoldable pub significant_statements : List Statement → List Statement
  unfolding cleaned
  significant_statements [] = []
  significant_statements (s ∷ statements) =
      if cleaned s.text == ""
      then significant_statements statements
      else s ∷ significant_statements statements

  -- the checks of the one statement
  unfoldable pub check_statement : Statement → Outcome SqlValidationError String
  unfolding check_keywords check_functions check_locking_clause check_unambiguous_lexing
  check_statement statement =
      if not (is_in statement.get_type g.policy.allowed_statement_types)
      then raise (non_select_statement statement.get_type)
      else check_keywords g statement.flatten >>= λ _. check_functions g statement.flatten >>= λ _.
          check_locking_clause g statement.flatten >>= λ _.
          check_unambiguous_lexing g (cleaned statement.text) >>= λ _. ok (cleaned statement.text)

  -- the text without comments, unless nothing is left
  unfoldable pub without_comments : String → Outcome SqlValidationError String
  unfolding parsed is_semicolon
  without_comments sql = parsed (g.sqlparse.format sql) >>= λ formatted.
      let stripped = g.py.strip formatted in
      if stripped == "" || g.py.strip (strip_chars is_semicolon stripped) == ""
      then raise empty_statement
      else ok stripped

  unfoldable pub validate_uncached : ℕ → String → Outcome SqlValidationError String
  unfolding without_comments significant_statements check_statement
  validate_uncached max_sql_length sql =
      if g.py.strip sql == ""
      then raise empty_statement
      else if ltb max_sql_length (Str.count sql)
      then raise (sql_too_long (Str.count sql) max_sql_length)
      else check_unambiguous_lexing g sql >>= λ _. without_comments sql >>= λ stripped.
          parsed (g.sqlparse.parse stripped) >>= λ statements.
          only (significant_statements statements) >>= check_statement
