-- ===== src/SqlGuard/Scans.antt =====
-- The loops of the token checks as scans, and their answers.
use fraud_analyzer_engine.Prelude.{
  ◌≡◌, refl, ap, Bool, true, false, not, ◌&&◌, ◌||◌, Option, some, List, [], ◌∷◌, ◌++◌, arith,
  texts, all, inl, inr, Bool-cases,
}
use fraud_analyzer_engine.Prelude.Outcome.{is_ok}
use fraud_analyzer_engine.SqlGuard.Defs.{Token, TokenType, Guard, is_keyword_type, is_plain_name}
use fraud_analyzer_engine.SqlGuard.Checks.{
  check_keywords, check_calls, check_locks, calls_forbidden, locks, first,
}
use fraud_analyzer_engine.SqlGuard.Positions.{found}
use fraud_analyzer_engine.SqlGuard.Forbidden.{
  is_bad_keyword, is_bad_name, is_keyword, is_filler, is_lock_word,
}

plain_name-is_keyword_type : (t : TokenType) → is_plain_name t ≡ true → is_keyword_type t ≡ false
unfolding is_plain_name is_keyword_type
plain_name-is_keyword_type TokenType.keyword h = ground arith
plain_name-is_keyword_type TokenType.dml h = ground arith
plain_name-is_keyword_type TokenType.ddl h = ground arith
plain_name-is_keyword_type TokenType.dcl h = ground arith
plain_name-is_keyword_type TokenType.cte h = ground arith
plain_name-is_keyword_type TokenType.name h = refl
plain_name-is_keyword_type TokenType.builtin h = refl
plain_name-is_keyword_type TokenType.placeholder h = refl
plain_name-is_keyword_type TokenType.symbol h = refl
plain_name-is_keyword_type TokenType.other h = refl

module _ (g : Guard) where
  abbrev pub bad_word : Option Token → Token → List Token → Bool
  bad_word preceding t after = is_bad_keyword g t || is_bad_name g t

  abbrev pub bad_call : Option Token → Token → List Token → Bool
  bad_call preceding t after = calls_forbidden g preceding t (first g after)

  abbrev pub bad_lock : Option Token → Token → List Token → Bool
  bad_lock preceding t after = is_keyword g "FOR" t && locks g after

  pub check_keywords-found :
      (preceding : Option Token) (tokens : List Token)
      → is_ok (check_keywords g tokens) ≡ not (found bad_word preceding tokens)
  unfolding check_keywords found
  check_keywords-found preceding [] = refl
  check_keywords-found preceding (t ∷ tokens) =
      ground (arith, plain_name-is_keyword_type t.ttype, check_keywords-found (some t) tokens)

  pub check_calls-found :
      (preceding : Option Token) (tokens : List Token)
      → is_ok (check_calls g preceding tokens) ≡ not (found bad_call preceding tokens)
  unfolding check_calls found
  check_calls-found preceding [] = refl
  check_calls-found preceding (t ∷ tokens) = ground (arith, check_calls-found (some t) tokens)

  pub check_locks-found :
      (preceding : Option Token) (tokens : List Token)
      → is_ok (check_locks g tokens) ≡ not (found bad_lock preceding tokens)
  unfolding check_locks found
  check_locks-found preceding [] = refl
  check_locks-found preceding (t ∷ tokens) = ground (arith, check_locks-found (some t) tokens)

  pub locks-position :
      (tokens : List Token)
      → locks g tokens ≡ true
      → (fillers : List Token) × (word : Token) × (after : List Token) × (tokens
          ≡ fillers ++ word ∷ after)
        × (all (is_filler g) fillers ≡ true)
        × (is_lock_word g word ≡ true)
  unfolding locks
  locks-position [] h = ground arith
  locks-position (t ∷ tokens) h = elim (Bool-cases (is_filler g t)) [
    | inl filler ↦
        let (fillers, word, after, e, a, b) = locks-position tokens (ground arith) in
        (t ∷ fillers, word, after, ap (◌∷◌ t) e, ground arith, b)
    | inr no_filler ↦ ([], t, tokens, refl, refl, ground arith)
  ]

  pub position-locks :
      (fillers : List Token) (word : Token) (after : List Token)
      → all (is_filler g) fillers ≡ true
      → is_lock_word g word ≡ true
      → locks g (fillers ++ word ∷ after) ≡ true
  unfolding locks
  position-locks [] word after a b = ground arith
  position-locks (t ∷ fillers) word after a b = ground (arith, position-locks fillers word after)
