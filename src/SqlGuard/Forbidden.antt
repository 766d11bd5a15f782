-- ===== src/SqlGuard/Forbidden.antt =====
-- What the token checks of sql_guard.py look for, described by where it stands in the statement.
use fraud_analyzer_engine.Prelude.{
  ◌≡◌, String, Bool, true, not, ◌&&◌, ◌||◌, List, ◌∷◌, ◌++◌, ◌==◌, texts, all,
}
use fraud_analyzer_engine.SqlGuard.Policy.{is_in, forbidden_functions}
use fraud_analyzer_engine.SqlGuard.Defs.{Token, Guard, is_keyword_type, is_name_type, is_plain_name}
use fraud_analyzer_engine.SqlGuard.Checks.{significant, bare_name}

module _ (g : Guard) where
  -- a keyword of the list
  abbrev pub is_bad_keyword : Token → Bool
  is_bad_keyword t =
      is_keyword_type t.ttype && is_in (g.py.upper t.value) g.policy.forbidden_keywords

  -- a name of the list
  abbrev pub is_bad_name : Token → Bool
  is_bad_name t = is_plain_name t.ttype && is_in (g.py.lower t.value) g.policy.forbidden_names

  -- a word that can name a function, of a list
  abbrev pub names : List String → Token → Bool
  names functions t =
      (is_name_type t.ttype || is_keyword_type t.ttype) && is_in (bare_name g t) functions

  abbrev pub is_keyword : String → Token → Bool
  is_keyword word t = is_keyword_type t.ttype && g.py.upper t.value == word

  -- `NO` or `KEY`, which may stand between `FOR` and the word of a lock
  abbrev pub is_filler : Token → Bool
  is_filler t =
      is_keyword_type t.ttype && (g.py.upper t.value == "NO" || g.py.upper t.value == "KEY")

  abbrev pub is_lock_word : Token → Bool
  is_lock_word t =
      is_keyword_type t.ttype
      && not (is_filler t)
      && is_in (g.py.upper t.value) g.policy.forbidden_locking_words

  -- The statement writes, calls or locks: a bad word anywhere; a forbidden function before a
  -- parenthesis, or one of PostgreSQL after a dot; a locking clause. White space does not count in
  -- the last three.
  pub data IsForbidden (tokens : List Token) : Type 0 where
    by_keyword :
        (before : List Token) (t : Token) (after : List Token)
        → tokens ≡ before ++ t ∷ after
        → is_bad_keyword t ≡ true
        → IsForbidden tokens
    by_name :
        (before : List Token) (t : Token) (after : List Token)
        → tokens ≡ before ++ t ∷ after
        → is_bad_name t ≡ true
        → IsForbidden tokens
    by_call :
        (before : List Token) (t paren : Token) (after : List Token)
        → significant g tokens ≡ before ++ t ∷ paren ∷ after
        → names (forbidden_functions g.policy) t ≡ true
        → paren.value ≡ "("
        → IsForbidden tokens
    by_field :
        (before : List Token) (dot t : Token) (after : List Token)
        → significant g tokens ≡ before ++ dot ∷ t ∷ after
        → dot.value ≡ "."
        → names g.policy.postgres_functions t ≡ true
        → IsForbidden tokens
    by_lock :
        (before : List Token) (anchor : Token) (fillers : List Token) (word : Token)
        (after : List Token)
        → significant g tokens ≡ before ++ anchor ∷ (fillers ++ word ∷ after)
        → is_keyword "FOR" anchor ≡ true
        → all is_filler fillers ≡ true
        → is_lock_word word ≡ true
        → IsForbidden tokens
