-- ===== src/SqlGuard/Checks.antt =====
-- The checks of a parsed statement's tokens: keywords, calls of functions, locking clauses.
use fraud_analyzer_engine.Prelude.{
  String, Bool, false, not, ◌&&◌, ◌||◌, Option, none, some, List, [], ◌∷◌, ◌==◌, texts, numbers,
  if◌then◌else◌,
}
use fraud_analyzer_engine.Prelude.Outcome.{ok, raise}
use fraud_analyzer_engine.Prelude.Text.{strip_chars}
use fraud_analyzer_engine.SqlGuard.Policy.{is_in, forbidden_functions}
use fraud_analyzer_engine.SqlGuard.Defs.{
  Token, Guard, Check, forbidden_keyword, forbidden_function, is_keyword_type, is_name_type,
  is_plain_name, is_quote,
}

module _ (g : Guard) where
  unfoldable pub check_keywords : List Token → Check
  unfolding is_keyword_type is_plain_name
  check_keywords [] = ok tt
  check_keywords (token ∷ tokens) =
      let word = g.py.upper token.value in
      let rest = check_keywords tokens in
      if is_keyword_type token.ttype
      then (if is_in word g.policy.forbidden_keywords then raise (forbidden_keyword word) else rest)
      else if is_plain_name token.ttype && is_in (g.py.lower token.value) g.policy.forbidden_names
      then raise (forbidden_keyword word)
      else rest

  -- the tokens that are not white space
  unfoldable pub significant : List Token → List Token
  significant [] = []
  significant (t ∷ tokens) = if t.is_whitespace then significant tokens else t ∷ significant tokens

  unfoldable pub bare_name : Token → String
  unfolding is_quote
  bare_name token = g.py.lower (strip_chars is_quote token.value)

  abbrev pub has_value : String → Option Token → Bool
  has_value v none = false
  has_value v (some t) = t.value == v

  abbrev pub first : List Token → Option Token
  first [] = none
  first (t ∷ tokens) = some t

  -- whether a token calls a function of the list: the token before it, and the one after
  unfoldable pub calls_forbidden : Option Token → Token → Option Token → Bool
  unfolding is_name_type is_keyword_type bare_name forbidden_functions
  calls_forbidden preceding token following =
      let name = bare_name token in
      (is_name_type token.ttype || is_keyword_type token.ttype)
      && is_in name (forbidden_functions g.policy)
      && (has_value "(" following
          || (has_value "." preceding && is_in name g.policy.postgres_functions))

  -- the loop over the significant tokens, after `preceding`
  unfoldable pub check_calls : Option Token → List Token → Check
  unfolding calls_forbidden
  check_calls preceding [] = ok tt
  check_calls preceding (token ∷ tokens) =
      let rest = check_calls (some token) tokens in
      if calls_forbidden preceding token (first tokens)
      then raise (forbidden_function (bare_name token))
      else rest

  unfoldable pub check_functions : List Token → Check
  unfolding check_calls significant
  check_functions tokens = check_calls none (significant tokens)

  -- the inner loop, from behind `FOR`: whether it raises
  unfoldable pub locks : List Token → Bool
  unfolding is_keyword_type
  locks [] = false
  locks (following ∷ tokens) =
      let word = g.py.upper following.value in
      let rest = locks tokens in
      if not (is_keyword_type following.ttype)
      then false
      else if word == "NO" || word == "KEY"
      then rest
      else is_in word g.policy.forbidden_locking_words

  unfoldable pub check_locks : List Token → Check
  unfolding locks
  check_locks [] = ok tt
  check_locks (token ∷ tokens) =
      let rest = check_locks tokens in
      if is_keyword_type token.ttype && g.py.upper token.value == "FOR" && locks tokens
      then raise (forbidden_keyword "FOR SHARE")
      else rest

  unfoldable pub check_locking_clause : List Token → Check
  unfolding check_locks significant
  check_locking_clause tokens = check_locks (significant tokens)
