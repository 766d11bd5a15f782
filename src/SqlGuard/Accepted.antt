-- ===== src/SqlGuard/Accepted.antt =====
-- What `validate_select` accepts, and what it returns then.
use Prim.Native.String as Str
use fraud_analyzer_engine.Prelude.{
  ℕ, ◌≤◌, ◌≡◌, ap, sym, ◌∙◌, String, Bool, true, false, ◌&&◌, ◌||◌, List, [], ◌∷◌, arith, ◌==◌,
  texts, ◌↔◌, inl, inr,
}
use fraud_analyzer_engine.Prelude.Outcome.{Outcome, ok, ◌>>=◌, is_ok, Outcome-cases}
use fraud_analyzer_engine.Prelude.Text.{strip_chars}
use fraud_analyzer_engine.SqlGuard.Policy.{is_in}
use fraud_analyzer_engine.SqlGuard.Defs.{
  Statement, Guard, SqlValidationError, check_unambiguous_lexing,
}
use fraud_analyzer_engine.SqlGuard.Validate.{
  is_semicolon, parsed, only, cleaned, significant_statements, check_statement, without_comments,
  validate_uncached,
}
use fraud_analyzer_engine.SqlGuard.Forbidden.{IsForbidden}
use fraud_analyzer_engine.SqlGuard.Tokens.{pass, pass-IsForbidden}
use fraud_analyzer_engine.SqlGuard.Lexing.{IsUnambiguous, check_unambiguous_lexing-IsUnambiguous}

module _ (g : Guard) where
  -- One statement of an allowed type, in which nothing forbidden stands and whose text has one
  -- reading; the output is that text.
  pub record IsReadOnly (statement : Statement) (out : String) : Type 0 where
    pub allowed : is_in statement.get_type g.policy.allowed_statement_types ≡ true
    pub harmless : ¬ IsForbidden g statement.flatten
    pub unambiguous : IsUnambiguous g (cleaned g statement.text)
    pub output : cleaned g statement.text ≡ out

  checked : Statement → Bool
  checked statement =
      is_in statement.get_type g.policy.allowed_statement_types
      && pass g statement.flatten
      && is_ok (check_unambiguous_lexing g (cleaned g statement.text))

  check_statement-checked :
      (statement : Statement) → is_ok (check_statement g statement) ≡ checked statement
  unfolding check_statement checked
  check_statement-checked statement = ground arith

  check_statement-output :
      (statement : Statement) (out : String)
      → check_statement g statement ≡ ok out
      → cleaned g statement.text ≡ out
  unfolding check_statement
  check_statement-output statement out h = ground arith

  output-check_statement :
      (statement : Statement)
      → is_ok (check_statement g statement) ≡ true
      → check_statement g statement ≡ ok (cleaned g statement.text)
  unfolding check_statement
  output-check_statement statement h = ground arith

  pub check_statement-IsReadOnly :
      (statement : Statement) (out : String)
      → (check_statement g statement ≡ ok out) ↔ IsReadOnly statement out
  unfolding checked
  check_statement-IsReadOnly statement out = (
    λ h.
        let passed : checked statement ≡ true =
          sym (check_statement-checked statement) ∙ ap is_ok h in
        record {
          allowed = ground arith;
          harmless = (pass-IsForbidden g statement.flatten).0 (ground arith);
          unambiguous =
              (check_unambiguous_lexing-IsUnambiguous g (cleaned g statement.text)).0
                (ground arith);
          output = check_statement-output statement out h;
        },
    λ r.
        output-check_statement statement (
          ground (
            arith,
            r.allowed,
            check_statement-checked statement,
            (pass-IsForbidden g statement.flatten).1 r.harmless,
            (check_unambiguous_lexing-IsUnambiguous g (cleaned g statement.text)).1 r.unambiguous,
          ))
        ∙ ap ok r.output,
  )

  abbrev pub is_blank : String → Bool
  is_blank text = text == "" || g.py.strip (strip_chars is_semicolon text) == ""

  -- What the guard found on the way from `sql` to `out`: within the length, with one reading, one
  -- statement behind the comments, read-only.
  pub record IsAccepted (max_sql_length : ℕ) (sql out : String) : Type 0 where
    pub formatted : String
    pub statements : List Statement
    pub statement : Statement
    pub not_empty : (g.py.strip sql == "") ≡ false
    pub short : Str.count sql ≤ max_sql_length
    pub unambiguous : IsUnambiguous g sql
    pub format : g.sqlparse.format sql ≡ ok formatted
    pub not_blank : is_blank (g.py.strip formatted) ≡ false
    pub parse : g.sqlparse.parse (g.py.strip formatted) ≡ ok statements
    pub single : significant_statements g statements ≡ statement ∷ []
    pub read_only : IsReadOnly statement out

  only-single :
      (statements : List Statement) (statement : Statement)
      → only statements ≡ ok statement
      → statements ≡ statement ∷ []
  only-single [] statement h = ground arith
  only-single (s ∷ []) statement h = ground arith
  only-single (s ∷ t ∷ statements) statement h = ground arith

  module _ (max_sql_length : ℕ) (sql out : String) where
    -- the part behind the tests of the text
    parse_and_check : String → Outcome SqlValidationError String
    parse_and_check stripped = parsed (g.sqlparse.parse stripped) >>= λ statements.
        only (significant_statements g statements) >>= check_statement g

    parse_and_check-ok :
        (stripped : String)
        → parse_and_check stripped ≡ ok out
        → (statements : List Statement) × (statement : Statement) × (g.sqlparse.parse stripped
            ≡ ok statements)
          × (significant_statements g statements ≡ statement ∷ [])
          × (check_statement g statement ≡ ok out)
    unfolding parse_and_check parsed
    parse_and_check-ok stripped h = elim (Outcome-cases (g.sqlparse.parse stripped)) [
      | inr (e, q) ↦ ground (arith, q)
      | inl (statements, q) ↦ elim (Outcome-cases (only (significant_statements g statements))) [
        | inr (e, r) ↦ ground (arith, q, r)
        | inl (statement, r) ↦ (
          statements,
          statement,
          q,
          only-single (significant_statements g statements) statement r,
          ground (arith, q, r),
        )
      ]
    ]

    without_comments-ok :
        (stripped : String)
        → without_comments g sql ≡ ok stripped
        → (formatted : String) × (g.sqlparse.format sql ≡ ok formatted)
          × (is_blank (g.py.strip formatted) ≡ false)
          × (g.py.strip formatted ≡ stripped)
    unfolding without_comments parsed
    without_comments-ok stripped h = elim (Outcome-cases (g.sqlparse.format sql)) [
      | inr (e, q) ↦ ground (arith, q)
      | inl (formatted, q) ↦ (formatted, q, ground (arith, q), ground (arith, q))
    ]

    validate_uncached-ok :
        validate_uncached g max_sql_length sql ≡ ok out
        → (stripped : String) × ((g.py.strip sql == "") ≡ false)
          × (Str.count sql ≤ max_sql_length)
          × (is_ok (check_unambiguous_lexing g sql) ≡ true)
          × (without_comments g sql ≡ ok stripped)
          × (parse_and_check stripped ≡ ok out)
    unfolding validate_uncached parse_and_check
    validate_uncached-ok h = elim (Outcome-cases (without_comments g sql)) [
      | inr (e, q) ↦ ground (arith, q)
      | inl (stripped, q) ↦
          (stripped, ground (arith, q), ground (arith, q), ground (arith, q), q, ground (arith, q))
    ]

    accepted : validate_uncached g max_sql_length sql ≡ ok out → IsAccepted max_sql_length sql out
    accepted h =
        let (stripped, n, l, u, w, p) = validate_uncached-ok h in
        let (formatted, f, b, e) = without_comments-ok stripped w in
        let (statements, statement, q, s, c) = parse_and_check-ok (g.py.strip formatted) (rw e p) in
        record {
          formatted = formatted;
          statements = statements;
          statement = statement;
          not_empty = n;
          short = l;
          unambiguous = (check_unambiguous_lexing-IsUnambiguous g sql).0 u;
          format = f;
          not_blank = b;
          parse = q;
          single = s;
          read_only = (check_statement-IsReadOnly statement out).0 c;
        }

    validated : IsAccepted max_sql_length sql out → validate_uncached g max_sql_length sql ≡ ok out
    unfolding validate_uncached without_comments parsed
    validated a = ground (
      arith,
      a.format,
      a.parse,
      a.single,
      a.not_blank,
      a.not_empty,
      (check_unambiguous_lexing-IsUnambiguous g sql).1 a.unambiguous,
      (check_statement-IsReadOnly a.statement out).1 a.read_only,
    )

    -- The checks accept a text with an output exactly when the text has characters other than white
    -- space, is within the length, and has one reading; it parses, without its comments, to one
    -- statement beside blank ones; that statement is of an allowed type; no forbidden keyword, name,
    -- call or locking clause stands in it; and its own text, which has one reading, is the output.
    pub validate_uncached-IsAccepted :
        (validate_uncached g max_sql_length sql ≡ ok out) ↔ IsAccepted max_sql_length sql out
    validate_uncached-IsAccepted = (accepted, validated)
