-- ===== src/SqlGuard/Defs.antt =====
-- services/analyzer/app/security/sql_guard.py. `sqlparse` is a library of others: a record of its
-- calls, with what each returns or raises. `max_sql_length` is a setting.
use Prim.Native.Char.{code}
use fraud_analyzer_engine.Prelude.{
  ℕ, String, Bool, true, false, not, ◌&&◌, ◌||◌, List, leb, ◌==◌, texts, numbers, if◌then◌else◌,
}
use fraud_analyzer_engine.Prelude.Outcome.{Outcome, ok, raise}
use fraud_analyzer_engine.Prelude.Text.{PyText, contains}
use fraud_analyzer_engine.SqlGuard.Policy.{Policy}

-- The types that the guard asks for: `T.Keyword`, its `DML`, `DDL`, `DCL` and `CTE`, `T.Name`, its
-- `Builtin` and `Placeholder`, `T.String.Symbol`; and every other.
pub data TokenType : Type 0 where
  keyword dml ddl dcl cte name builtin placeholder symbol other : TokenType

pub record Token : Type 0 where
  pub ttype : TokenType
  pub value : String
  pub is_whitespace : Bool

-- `str(statement)`, `statement.flatten()`, `statement.get_type()`
pub record Statement : Type 0 where
  pub text : String
  pub flatten : List Token
  pub get_type : String

pub data ParseFailure : Type 0 where
  sql_parse_error recursion_error : ParseFailure

-- `format` with `strip_comments=True`, and `parse`
pub record Sqlparse : Type 0 where
  pub format : String → Outcome ParseFailure String
  pub parse : String → Outcome ParseFailure (List Statement)

-- A `SqlValidationError`: its code, with its detail.
pub data SqlValidationError : Type 0 where
  empty_statement invalid_sql : SqlValidationError
  sql_too_long : ℕ → ℕ → SqlValidationError
  multiple_statements : ℕ → SqlValidationError
  non_select_statement : String → SqlValidationError
  forbidden_keyword : String → SqlValidationError
  forbidden_function : String → SqlValidationError

abbrev pub Check : Type 0
Check = Outcome SqlValidationError (Unit {0})

-- `ttype in _KEYWORD_TYPES`
unfoldable pub is_keyword_type : TokenType → Bool
is_keyword_type TokenType.keyword = true
is_keyword_type TokenType.dml = true
is_keyword_type TokenType.ddl = true
is_keyword_type TokenType.dcl = true
is_keyword_type TokenType.cte = true
is_keyword_type _ = false

-- `ttype in _NAME_TYPES`
unfoldable pub is_name_type : TokenType → Bool
is_name_type TokenType.name = true
is_name_type TokenType.builtin = true
is_name_type TokenType.placeholder = true
is_name_type TokenType.symbol = true
is_name_type _ = false

-- `ttype in (T.Name, T.Name.Builtin)`
unfoldable pub is_plain_name : TokenType → Bool
is_plain_name TokenType.name = true
is_plain_name TokenType.builtin = true
is_plain_name _ = false

-- `_QUOTES`
unfoldable pub is_quote : ℕ → Bool
is_quote c = c == b'"' || c == b'`' || c == b'[' || c == b']'

-- `[A-Za-z0-9_]`
unfoldable pub is_word : ℕ → Bool
is_word c =
    (leb b'A' c && leb c b'Z')
    || (leb b'a' c && leb c b'z')
    || (leb b'0' c && leb c b'9')
    || c == b'_'

abbrev pub backslash_quote : String
backslash_quote = "\\'"

-- What the checks read besides the statement. `is_space` is `\s` of a regular expression.
pub record Guard : Type 0 where
  pub py : PyText
  pub is_space : ℕ → Bool
  pub sqlparse : Sqlparse
  pub policy : Policy

module _ (g : Guard) where
  -- `\s*['"]` at the start of a text
  unfoldable pub spaces_quote : String → Bool
  spaces_quote String.[] = false
  spaces_quote (String.◌∷◌ c s) =
      let rest = spaces_quote s in
      if code c == b'\'' || code c == b'"' then true else g.is_space (code c) && rest

  -- `&\s*['"]` at the start
  unfoldable pub amp_quote : String → Bool
  unfolding spaces_quote
  amp_quote String.[] = false
  amp_quote (String.◌∷◌ c s) = code c == b'&' && spaces_quote s

  -- `_UNICODE_ESCAPE_LITERAL.search`, after a character that is of a word, or not
  unfoldable pub unicode_escape : Bool → String → Bool
  unfolding amp_quote is_word
  unicode_escape after_word String.[] = false
  unicode_escape after_word (String.◌∷◌ c s) =
      let rest = unicode_escape (is_word (code c)) s in
      (not after_word && (code c == b'u' || code c == b'U') && amp_quote s) || rest

  unfoldable pub check_unambiguous_lexing : String → Check
  unfolding unicode_escape
  check_unambiguous_lexing sql =
      if contains sql backslash_quote
      then raise invalid_sql
      else if unicode_escape false sql
      then raise invalid_sql
      else ok tt
