-- ===== src/SqlGuard/Tokens.antt =====
-- The token checks pass exactly the statements in which nothing forbidden stands.
use mathlib.Core.List.{append_assoc}
use fraud_analyzer_engine.Prelude.{
  ◌≡◌, refl, ap, sym, ◌∙◌, String, Bool, true, false, ◌&&◌, none, List, [], ◌∷◌, ◌++◌, arith, texts,
  eq_iff, inl, inr, ◌↔◌, Bool-cases, Option-cases,
}
use fraud_analyzer_engine.Prelude.Outcome.{is_ok}
use fraud_analyzer_engine.SqlGuard.Policy.{is_in, forbidden_functions}
use fraud_analyzer_engine.SqlGuard.Defs.{Token, Guard}
use fraud_analyzer_engine.SqlGuard.Checks.{
  check_keywords, check_functions, check_locking_clause, calls_forbidden, first, has_value,
  significant, bare_name,
}
use fraud_analyzer_engine.SqlGuard.Positions.{
  found, last_of, last_of-append, last_of-cases, found-position, position-found,
}
use fraud_analyzer_engine.SqlGuard.Scans.{
  bad_word, bad_call, bad_lock, check_keywords-found, check_calls-found, check_locks-found,
  locks-position, position-locks,
}
use fraud_analyzer_engine.SqlGuard.Forbidden.{
  IsForbidden, by_keyword, by_name, by_call, by_field, by_lock, is_bad_keyword, names,
}

module _ (g : Guard) where
  pub has_value-first :
      (v : String) (after : List Token)
      → has_value g v (first g after) ≡ true
      → (t : Token) × (rest : List Token) × (after ≡ t ∷ rest) × (t.value ≡ v)
  has_value-first v [] h = ground arith
  has_value-first v (t ∷ rest) h = (t, rest, refl, ground (arith, eq_iff t.value v))

  has_value-last_of :
      (v : String) (before : List Token)
      → has_value g v (last_of none before) ≡ true
      → (t : Token) × (rest : List Token) × (before ≡ rest ++ t ∷ []) × (t.value ≡ v)
  has_value-last_of v before h = elim (Option-cases (last_of none before)) [
    | inl e ↦ ground (arith, e)
    | inr (t, e) ↦
        let (rest, p) = last_of-cases before t e in
        (t, rest, p, ground (arith, e, eq_iff t.value v))
  ]

  calls_forbidden-IsForbidden :
      (tokens before : List Token) (t : Token) (after : List Token)
      → significant g tokens ≡ before ++ t ∷ after
      → calls_forbidden g (last_of none before) t (first g after) ≡ true
      → IsForbidden g tokens
  unfolding calls_forbidden
  calls_forbidden-IsForbidden tokens before t after e h =
      elim (Bool-cases (has_value g "(" (first g after))) [
        | inl called ↦
            let (paren, rest, p, q) = has_value-first "(" after called in
            by_call before t paren rest (e ∙ ap (λ (ts : List Token). before ++ t ∷ ts) p)
              (ground arith) q
        | inr no_call ↦
            let (dot, rest, p, q) = has_value-last_of "." before (ground arith) in
            by_field rest dot t after
              (e
                ∙ ap (λ (ts : List Token). ts ++ t ∷ after) p
                ∙ append_assoc rest (dot ∷ []) (t ∷ after))
              q (ground arith)
      ]

  lock-IsForbidden :
      (tokens before : List Token) (t : Token) (after : List Token)
      → significant g tokens ≡ before ++ t ∷ after
      → bad_lock g (last_of none before) t after ≡ true
      → IsForbidden g tokens
  lock-IsForbidden tokens before t after e h =
      let (fillers, word, rest, p, a, b) = locks-position g after (ground arith) in
      by_lock before t fillers word rest (e ∙ ap (λ (ts : List Token). before ++ t ∷ ts) p)
        (ground arith) a b

  word-IsForbidden :
      (tokens before : List Token) (t : Token) (after : List Token)
      → tokens ≡ before ++ t ∷ after
      → bad_word g (last_of none before) t after ≡ true
      → IsForbidden g tokens
  word-IsForbidden tokens before t after e h = elim (Bool-cases (is_bad_keyword g t)) [
    | inl bad ↦ by_keyword before t after e bad
    | inr fine ↦ by_name before t after e (ground arith)
  ]

  -- whether the three checks pass
  abbrev pub pass : List Token → Bool
  pass tokens =
      is_ok (check_keywords g tokens)
      && is_ok (check_functions g tokens)
      && is_ok (check_locking_clause g tokens)

  pub refused-IsForbidden : (tokens : List Token) → pass tokens ≡ false → IsForbidden g tokens
  unfolding check_functions check_locking_clause
  refused-IsForbidden tokens h = elim (Bool-cases (found (bad_word g) none tokens)) [
    | inl hit ↦
        let (before, t, after, e, b) = found-position (bad_word g) none tokens hit in
        word-IsForbidden tokens before t after e b
    | inr no_word ↦ elim (Bool-cases (found (bad_call g) none (significant g tokens))) [
      | inl hit ↦
          let (before, t, after, e, b) =
            found-position (bad_call g) none (significant g tokens) hit in
          calls_forbidden-IsForbidden tokens before t after e b
      | inr no_call ↦
          let (before, t, after, e, b) = found-position (bad_lock g) none (significant g tokens) (
            ground (
              arith,
              check_keywords-found g none tokens,
              check_calls-found g none (significant g tokens),
              check_locks-found g none (significant g tokens),
            )) in
          lock-IsForbidden tokens before t after e b
    ]
  ]

  found_word :
      (tokens before : List Token) (t : Token) (after : List Token)
      → tokens ≡ before ++ t ∷ after
      → bad_word g (last_of none before) t after ≡ true
      → is_ok (check_keywords g tokens) ≡ false
  found_word tokens before t after e h = rw e (
      ground (
        arith,
        check_keywords-found g none (before ++ t ∷ after),
        position-found (bad_word g) none before t after h,
      ))

  found_call :
      (tokens before : List Token) (t : Token) (after : List Token)
      → significant g tokens ≡ before ++ t ∷ after
      → bad_call g (last_of none before) t after ≡ true
      → is_ok (check_functions g tokens) ≡ false
  unfolding check_functions
  found_call tokens before t after e h = rw e (
      ground (
        arith,
        check_calls-found g none (before ++ t ∷ after),
        position-found (bad_call g) none before t after h,
      ))

  found_lock :
      (tokens before : List Token) (t : Token) (after : List Token)
      → significant g tokens ≡ before ++ t ∷ after
      → bad_lock g (last_of none before) t after ≡ true
      → is_ok (check_locking_clause g tokens) ≡ false
  unfolding check_locking_clause
  found_lock tokens before t after e h = rw e (
      ground (
        arith,
        check_locks-found g none (before ++ t ∷ after),
        position-found (bad_lock g) none before t after h,
      ))

  any-append_left :
      (word : String) (xs ys : List String) → is_in word xs ≡ true → is_in word (xs ++ ys) ≡ true
  any-append_left word [] ys h = ground arith
  any-append_left word (x ∷ xs) ys h = ground (arith, any-append_left word xs ys)

  in_forbidden_functions :
      (t : Token)
      → names g g.policy.postgres_functions t ≡ true
      → names g (forbidden_functions g.policy) t ≡ true
  unfolding forbidden_functions
  in_forbidden_functions t h = ground (
    arith,
    any-append_left (bare_name g t) g.policy.postgres_functions
        (g.policy.mysql_functions ++ g.policy.sqlite_functions),
  )

  pub forbidden-refused : (tokens : List Token) → IsForbidden g tokens → pass tokens ≡ false
  unfolding calls_forbidden
  forbidden-refused tokens (by_keyword before t after e h) =
      ground (arith, found_word tokens before t after e)
  forbidden-refused tokens (by_name before t after e h) =
      ground (arith, found_word tokens before t after e)
  forbidden-refused tokens (by_call before t paren after e h p) =
      ground (arith, found_call tokens before t (paren ∷ after) e, eq_iff paren.value "(")
  forbidden-refused tokens (by_field before dot t after e p h) = ground (
    arith,
    found_call tokens (before ++ dot ∷ []) t after
        (e ∙ sym (append_assoc before (dot ∷ []) (t ∷ after))),
    last_of-append none before dot,
    eq_iff dot.value ".",
    in_forbidden_functions t h,
  )
  forbidden-refused tokens (by_lock before anchor fillers word after e a f w) = ground (
    arith,
    found_lock tokens before anchor (fillers ++ word ∷ after) e,
    position-locks g fillers word after f w,
  )

  -- The three token checks pass a statement exactly when no forbidden keyword or name stands in
  -- it, no forbidden function is called in it, by a parenthesis or by a field, and no locking
  -- clause.
  pub pass-IsForbidden : (tokens : List Token) → (pass tokens ≡ true) ↔ (¬ IsForbidden g tokens)
  pass-IsForbidden tokens = (
    λ h f. ground (arith, forbidden-refused tokens f),
    λ n. elim (Bool-cases (pass tokens)) [
      | inl h ↦ h
      | inr h ↦ elim (n (refused-IsForbidden tokens h)) [ ]
    ],
  )
