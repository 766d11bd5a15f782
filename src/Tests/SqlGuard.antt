-- ===== src/Tests/SqlGuard.antt =====
-- services/analyzer/app/security/sql_guard.py with a small parser: words between spaces, statements
-- between semicolons.
use Prim.Native.Char.{Char, code}
use Prim.Native.String.{slice, ◌++◌ as ◌<>◌}
use fraud_analyzer_engine.Prelude.{
  ℕ, ◌+◌, ◌-◌, ◌≡◌, refl, String, Bool, true, false, ◌&&◌, ◌||◌, List, [], ◌∷◌, map, leb, ◌==◌,
  texts, numbers, if◌then◌else◌, ◌↔◌, ◌⊎◌, ◌≤◌, length,
}
use fraud_analyzer_engine.Prelude.Outcome.{ok, raise, ◌>>=◌}
use fraud_analyzer_engine.Prelude.Text.{PyText, split, strip_chars, contains}
use fraud_analyzer_engine.SqlGuard.Policy.{sql_allowlist, validate_policy, forbidden_functions}
use fraud_analyzer_engine.SqlGuard.Defs.{
  Token, TokenType, Statement, Guard, invalid_sql, forbidden_function, is_keyword_type,
  is_plain_name, is_name_type, is_quote, SqlValidationError, forbidden_keyword, multiple_statements,
  empty_statement,
}
use fraud_analyzer_engine.SqlGuard.Checks.{significant}
use fraud_analyzer_engine.SqlGuard.Validate.{validate_uncached}
use fraud_analyzer_engine.SqlGuard.Forbidden.{IsForbidden}
use fraud_analyzer_engine.SqlGuard.Tokens.{pass, pass-IsForbidden}
use fraud_analyzer_engine.SqlGuard.Listed.{validate_policy-pass}
use fraud_analyzer_engine.SqlGuard.Accepted.{IsAccepted}
use fraud_analyzer_engine.SqlGuard.Memo.{Settings, remember, validate_select, IsReachable}
use fraud_analyzer_engine.SqlGuard.Remembered.{IsReachable-bounded, validate_select-IsAccepted}
use fraud_analyzer_engine.SqlGuard.Executed.{execute_sql-IsAccepted, guarded, error_code}
use fraud_analyzer_engine.Dict.{Dict, IsDistinct}
use fraud_analyzer_engine.Execution.{Limits, ExecutionError, execute_sql, fetch_rows}
use fraud_analyzer_engine.Tests.Execution.{target}

abbrev upper_char : Char → String
upper_char c =
    if leb b'a' (code c) && leb (code c) b'z'
    then slice "ABCDEFGHIJKLMNOPQRSTUVWXYZ" (code c - b'a') (code c - b'a' + 1)
    else String.◌∷◌ c ""

abbrev lower_char : Char → String
lower_char c =
    if leb b'A' (code c) && leb (code c) b'Z'
    then slice "abcdefghijklmnopqrstuvwxyz" (code c - b'A') (code c - b'A' + 1)
    else String.◌∷◌ c ""

abbrev each_char : (Char → String) → String → String
each_char f String.[] = ""
each_char f (String.◌∷◌ c s) = f c <> each_char f s

abbrev is_space : ℕ → Bool
is_space c = c == b' '

abbrev ascii : PyText
ascii = record {
  strip = strip_chars is_space;
  lower = each_char lower_char;
  casefold = each_char lower_char;
  upper = each_char upper_char;
}

abbrev word_type : String → TokenType
word_type word =
    if word == "SELECT"
    then TokenType.dml
    else if word == "FOR" || word == "SHARE" || word == "INTO" || word == "KEY"
    then TokenType.keyword
    else TokenType.name

abbrev token : String → Token
token word = record { ttype = word_type word; value = word; is_whitespace = word == "" }

abbrev first_word : List String → String
first_word [] = ""
first_word (word ∷ words) = if word == "" then first_word words else word

abbrev statement : String → Statement
statement text = record {
  text = text;
  flatten = map token (split b' ' text);
  get_type = first_word (split b' ' text);
}

abbrev guard : Guard
guard = record {
  py = ascii;
  is_space = is_space;
  sqlparse = record { format = λ sql. ok sql; parse = λ sql. ok (map statement (split b';' sql)) };
  policy = sql_allowlist;
}

accepts : validate_uncached guard 40 "SELECT a FROM t ;" ≡ ok "SELECT a FROM t"
unfolding validate_uncached sql_allowlist contains strip_chars split
accepts = refl

call_refused :
    validate_uncached guard 40 "SELECT \"pg_sleep\" ( 9 )" ≡ raise (forbidden_function "pg_sleep")
unfolding validate_uncached sql_allowlist contains strip_chars split
call_refused = refl

lock_refused :
    validate_uncached guard 40 "SELECT a FOR KEY SHARE" ≡ raise (forbidden_keyword "FOR SHARE")
unfolding validate_uncached sql_allowlist contains strip_chars split
lock_refused = refl

share_column : validate_uncached guard 40 "SELECT SHARE FROM t" ≡ ok "SELECT SHARE FROM t"
unfolding validate_uncached sql_allowlist contains strip_chars split
share_column = refl

stacked : validate_uncached guard 40 "SELECT 1; DROP t" ≡ raise (multiple_statements 2)
unfolding validate_uncached sql_allowlist contains strip_chars split
stacked = refl

backslash : validate_uncached guard 40 "SELECT 'x\\', f" ≡ raise invalid_sql
unfolding validate_uncached sql_allowlist contains strip_chars split
backslash = refl

unicode_name : validate_uncached guard 40 "SELECT U& \"pg\" ( 1 )" ≡ raise invalid_sql
unfolding validate_uncached sql_allowlist contains strip_chars split
unicode_name = refl

only_semicolons : validate_uncached guard 40 " ; ;" ≡ raise empty_statement
unfolding validate_uncached sql_allowlist contains strip_chars split
only_semicolons = refl

allowlist_loads : validate_policy ascii sql_allowlist ≡ true
unfolding validate_policy sql_allowlist contains strip_chars split forbidden_functions
allowlist_loads = refl

abbrev call : List Token
call = map token (split b' ' "SELECT SLEEP (")

pass-IsForbidden_example : (pass guard call ≡ true) ↔ (¬ IsForbidden guard call)
pass-IsForbidden_example = pass-IsForbidden guard call

validate_policy-pass_example :
    pass guard (token "SELECT" ∷ token "\"sleep\"" ∷ token "(" ∷ []) ≡ false
unfolding sql_allowlist strip_chars forbidden_functions validate_policy is_keyword_type
    is_plain_name is_name_type is_quote significant
validate_policy-pass_example =
    validate_policy-pass guard (token "SELECT" ∷ []) (token "\"sleep\"") (token "(" ∷ []) refl refl

abbrev settings : Settings
settings = record { max_sql_length = 40; sql_validation_cache_size = 1 }

abbrev text : String
text = "SELECT a FROM t ;"

abbrev memo : Dict String
memo = remember settings.sql_validation_cache_size text "SELECT a FROM t" []

memo-IsReachable : IsReachable guard settings memo
memo-IsReachable = IsReachable.write [] text "SELECT a FROM t" IsReachable.start accepts

IsReachable-bounded_example : IsDistinct memo × (length memo ≤ 1)
IsReachable-bounded_example = IsReachable-bounded guard settings memo memo-IsReachable

validate_select-IsAccepted_example :
    ((validate_select guard settings text memo).0 ≡ ok "SELECT a FROM t")
    ↔ IsAccepted guard 40 text "SELECT a FROM t"
validate_select-IsAccepted_example =
    validate_select-IsAccepted guard settings text "SELECT a FROM t" memo memo-IsReachable

abbrev limits : Limits
limits = record { default_row_limit = 1; max_row_limit = 2; max_result_bytes = 10 }

execute_sql-IsAccepted_example :
    ((out : String) × IsAccepted guard 40 text out
      × (execute_sql (guarded guard settings memo target) limits text 1 5
          ≡ (target.execute out >>= fetch_rows (guarded guard settings memo target) 10 1 5)))
    ⊎ ((e : SqlValidationError) × (validate_uncached guard 40 text ≡ raise e)
        × (execute_sql (guarded guard settings memo target) limits text 1 5
            ≡ raise (ExecutionError.refused (error_code e))))
execute_sql-IsAccepted_example =
    execute_sql-IsAccepted guard settings memo target limits text 1 5 memo-IsReachable
