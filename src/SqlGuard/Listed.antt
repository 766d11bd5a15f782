-- ===== src/SqlGuard/Listed.antt =====
-- What `validate_policy` is for: an entry of a list that it passes is refused as it is spelled.
use fraud_analyzer_engine.Prelude.{
  ap, ◌≡◌, refl, ◌∙◌, String, Bool, true, false, not, ◌&&◌, ◌||◌, List, [], ◌∷◌, ◌++◌, arith, ◌==◌,
  texts, eq_iff, all, Bool-cases, inl, inr,
}
use fraud_analyzer_engine.Prelude.Text.{strip_chars}
use fraud_analyzer_engine.SqlGuard.Policy.{is_in, forbidden_functions, validate_policy}
use fraud_analyzer_engine.SqlGuard.Defs.{
  Token, Guard, is_keyword_type, is_name_type, is_plain_name, is_quote,
}
use fraud_analyzer_engine.SqlGuard.Checks.{bare_name, significant, has_value, first}
use fraud_analyzer_engine.SqlGuard.Tokens.{pass, forbidden-refused, has_value-first}
use fraud_analyzer_engine.SqlGuard.Forbidden.{
  IsForbidden, by_keyword, by_name, by_call, is_bad_keyword, is_bad_name, names,
}

all-is_in :
    (p : String → Bool) (word : String) (words : List String)
    → all p words ≡ true
    → is_in word words ≡ true
    → p word ≡ true
all-is_in p word [] a h = ground arith
all-is_in p word (w ∷ words) a h = elim (Bool-cases (w == word)) [
  | inl e ↦ ground (arith, (eq_iff w word).0 e)
  | inr n ↦ all-is_in p word words (ground arith) (ground arith)
]

all-append :
    (p : String → Bool) (xs ys : List String)
    → all p (xs ++ ys) ≡ true
    → (all p xs ≡ true) × (all p ys ≡ true)
all-append p [] ys h = (refl, h)
all-append p (x ∷ xs) ys h = let (a, b) = all-append p xs ys (ground arith) in (ground arith, b)

module _ (g : Guard) where
  -- a keyword, a name, or a function's name in quotes or without, as a list of the policy spells it
  abbrev pub is_listed_keyword : Token → Bool
  is_listed_keyword t = is_keyword_type t.ttype && is_in t.value g.policy.forbidden_keywords

  abbrev pub is_listed_name : Token → Bool
  is_listed_name t = is_plain_name t.ttype && is_in t.value g.policy.forbidden_names

  abbrev pub is_listed_function : Token → Bool
  is_listed_function t =
      (is_name_type t.ttype || is_keyword_type t.ttype)
      && is_in (strip_chars is_quote t.value) (forbidden_functions g.policy)

  abbrev upper_entry : String → Bool
  upper_entry word = word == g.py.upper word && not (g.py.strip word == "")

  abbrev lower_entry : String → Bool
  lower_entry name = name == g.py.lower name && not (g.py.strip name == "")

  keyword_entry :
      (word : String)
      → validate_policy g.py g.policy ≡ true
      → is_in word g.policy.forbidden_keywords ≡ true
      → g.py.upper word ≡ word
  unfolding validate_policy
  keyword_entry word v h =
      let passed =
        (all-append upper_entry g.policy.forbidden_keywords
          (g.policy.forbidden_locking_words ++ g.policy.allowed_statement_types)
          (ground arith)).0 in
      let entry = all-is_in upper_entry word g.policy.forbidden_keywords passed h in
      ground (arith, eq_iff word (g.py.upper word))

  name_entry :
      (name : String)
      → validate_policy g.py g.policy ≡ true
      → is_in name g.policy.forbidden_names ≡ true
      → g.py.lower name ≡ name
  unfolding validate_policy
  name_entry name v h =
      let passed =
        (all-append lower_entry g.policy.forbidden_names (forbidden_functions g.policy)
          (ground arith)).0 in
      let entry = all-is_in lower_entry name g.policy.forbidden_names passed h in
      ground (arith, eq_iff name (g.py.lower name))

  function_entry :
      (name : String)
      → validate_policy g.py g.policy ≡ true
      → is_in name (forbidden_functions g.policy) ≡ true
      → g.py.lower name ≡ name
  unfolding validate_policy
  function_entry name v h =
      let passed =
        (all-append lower_entry g.policy.forbidden_names (forbidden_functions g.policy)
          (ground arith)).1 in
      let entry = all-is_in lower_entry name (forbidden_functions g.policy) passed h in
      ground (arith, eq_iff name (g.py.lower name))

  listed_keyword :
      (t : Token)
      → validate_policy g.py g.policy ≡ true
      → is_listed_keyword t ≡ true
      → is_bad_keyword g t ≡ true
  listed_keyword t v h = let e = keyword_entry t.value v (ground arith) in rw e h

  listed_name :
      (t : Token)
      → validate_policy g.py g.policy ≡ true
      → is_listed_name t ≡ true
      → is_bad_name g t ≡ true
  listed_name t v h = let e = name_entry t.value v (ground arith) in rw e h

  listed_function :
      (t : Token)
      → validate_policy g.py g.policy ≡ true
      → is_listed_function t ≡ true
      → names g (forbidden_functions g.policy) t ≡ true
  unfolding bare_name
  listed_function t v h =
      let e = function_entry (strip_chars is_quote t.value) v (ground arith) in rw e h

  significant-append :
      (xs ys : List Token) → significant g (xs ++ ys) ≡ significant g xs ++ significant g ys
  unfolding significant
  significant-append [] ys = refl
  significant-append (x ∷ xs) ys = ground (arith, significant-append xs ys)

  significant-cons :
      (t : Token) (after : List Token)
      → t.is_whitespace ≡ false
      → significant g (t ∷ after) ≡ t ∷ significant g after
  unfolding significant
  significant-cons t after w = ground (arith, w)

  -- whether the next token, white space left out, is an opening parenthesis
  abbrev pub opens : List Token → Bool
  opens after = has_value g "(" (first g (significant g after))

  listed_call :
      (before : List Token) (t : Token) (after : List Token)
      → validate_policy g.py g.policy ≡ true
      → is_listed_function t ≡ true
      → t.is_whitespace ≡ false
      → opens after ≡ true
      → IsForbidden g (before ++ t ∷ after)
  listed_call before t after v h w o =
      let (paren, rest, e, q) = has_value-first g "(" (significant g after) o in
      by_call (significant g before) t paren rest
        (significant-append before (t ∷ after)
          ∙ ap (◌++◌ (significant g before)) (significant-cons t after w ∙ ap (◌∷◌ t) e))
        (listed_function t v h) q

  -- Under a policy that `validate_policy` lets load, a statement is refused wherever a keyword or a
  -- name stands in it as a list spells it, or a listed function's name, in quotes or without, whose
  -- next token, white space left out, is an opening parenthesis.
  pub validate_policy-pass :
      (before : List Token) (t : Token) (after : List Token)
      → validate_policy g.py g.policy ≡ true
      → (is_listed_keyword t
          || is_listed_name t
          || (is_listed_function t && not t.is_whitespace && opens after))
        ≡ true
      → pass g (before ++ t ∷ after) ≡ false
  validate_policy-pass before t after v h =
      forbidden-refused g (before ++ t ∷ after) (elim (Bool-cases (is_listed_keyword t)) [
        | inl k ↦ by_keyword before t after refl (listed_keyword t v k)
        | inr k ↦ elim (Bool-cases (is_listed_name t)) [
          | inl n ↦ by_name before t after refl (listed_name t v n)
          | inr n ↦ listed_call before t after v (ground arith) (ground arith) (ground arith)
        ]
      ])
