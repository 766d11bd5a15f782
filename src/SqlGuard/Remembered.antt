-- ===== src/SqlGuard/Remembered.antt =====
-- The memo of `validate_select`: sound, bounded, and without effect on what it answers.
use fraud_analyzer_engine.Prelude.{
  ℕ, ◌≤◌, ◌≡◌, sym, String, none, some, [], ◌∷◌, arith, texts, eq_iff, ◌↔◌, inl, inr, Option-cases,
  length,
}
use fraud_analyzer_engine.Prelude.Outcome.{ok, raise, Outcome-cases}
use fraud_analyzer_engine.Dict
use fraud_analyzer_engine.Dict.{Dict, get, put_last, IsDistinct}
use fraud_analyzer_engine.SqlGuard.Defs.{Guard, SqlValidationError}
use fraud_analyzer_engine.SqlGuard.Validate.{validate_uncached}
use fraud_analyzer_engine.SqlGuard.Accepted.{IsAccepted, validate_uncached-IsAccepted}
use fraud_analyzer_engine.SqlGuard.Memo.{
  Settings, trim, remember, clear_validation_cache, validate_select, IsReachable, start, write,
  clear,
}

get-trim :
    (limit : ℕ) (d : Dict String) (sql result : String)
    → IsDistinct d
    → get sql (trim limit d) ≡ some result
    → get sql d ≡ some result
unfolding trim get
get-trim limit [] sql result u h = h
get-trim limit ((j, v) ∷ d) sql result u h =
    ground (arith, eq_iff j sql, get-trim limit d sql result u.1)

trim-IsDistinct : (limit : ℕ) (d : Dict String) → IsDistinct d → IsDistinct (trim limit d)
unfolding trim
trim-IsDistinct limit [] u = tt
trim-IsDistinct limit (e ∷ d) u = ground (arith, trim-IsDistinct limit d u.1)

trim-length : (limit : ℕ) (d : Dict String) → length (trim limit d) ≤ limit
unfolding trim
trim-length limit [] = omega arith
trim-length limit (e ∷ d) = ground (arith, trim-length limit d)

module _ (g : Guard) (settings : Settings) where
  -- Each entry is a verdict that the checks give today.
  IsSound : Dict String → Type 0
  IsSound d =
      (sql result : String)
      → get sql d ≡ some result
      → validate_uncached g settings.max_sql_length sql ≡ ok result

  remember-IsSound :
      (d : Dict String) (sql result : String)
      → IsDistinct d
      → IsSound d
      → validate_uncached g settings.max_sql_length sql ≡ ok result
      → IsSound (remember settings.sql_validation_cache_size sql result d)
  unfolding remember IsSound
  remember-IsSound d sql result u s v key r h = ground (
    arith,
    s key r,
    eq_iff sql key,
    Dict.get-put_last sql key result d,
    get-trim settings.sql_validation_cache_size (put_last sql result d) key r
        (Dict.put_last-IsDistinct sql result d u),
  )

  remember-IsDistinct :
      (limit : ℕ) (sql result : String) (d : Dict String)
      → IsDistinct d
      → IsDistinct (remember limit sql result d)
  unfolding remember
  remember-IsDistinct limit sql result d u = ground (
    arith,
    trim-IsDistinct limit (put_last sql result d) (Dict.put_last-IsDistinct sql result d u),
  )

  remember-length :
      (limit : ℕ) (sql result : String) (d : Dict String)
      → length d ≤ limit
      → length (remember limit sql result d) ≤ limit
  unfolding remember
  remember-length limit sql result d h = ground (arith, trim-length limit (put_last sql result d))

  -- In every memo that threads can produce, in any order of their writes, a text has one entry, and
  -- there are at most `sql_validation_cache_size` of them.
  pub IsReachable-bounded :
      (d : Dict String)
      → IsReachable g settings d
      → IsDistinct d × (length d ≤ settings.sql_validation_cache_size)
  unfolding clear_validation_cache
  IsReachable-bounded d start = (tt, omega arith)
  IsReachable-bounded d (write validated sql result r v) =
      let (u, l) = IsReachable-bounded validated r in
      (
        remember-IsDistinct settings.sql_validation_cache_size sql result validated u,
        remember-length settings.sql_validation_cache_size sql result validated l,
      )
  IsReachable-bounded d (clear validated r) = (tt, omega arith)

  IsReachable-IsSound : (d : Dict String) → IsReachable g settings d → IsSound d
  unfolding clear_validation_cache IsSound get
  IsReachable-IsSound d start = λ sql result h. ground arith
  IsReachable-IsSound d (write validated text found r v) =
      remember-IsSound validated text found (IsReachable-bounded validated r).0
        (IsReachable-IsSound validated r) v
  IsReachable-IsSound d (clear validated r) = λ sql result h. ground arith

  validate_select-hit :
      (sql cached : String) (d : Dict String)
      → get sql d ≡ some cached
      → validate_select g settings sql d ≡ (ok cached, d)
  unfolding validate_select
  validate_select-hit sql cached d h = ground (arith, h)

  validate_select-miss :
      (sql result : String) (d : Dict String)
      → get sql d ≡ none
      → validate_uncached g settings.max_sql_length sql ≡ ok result
      → validate_select g settings sql d
        ≡ (ok result, remember settings.sql_validation_cache_size sql result d)
  unfolding validate_select
  validate_select-miss sql result d h v = ground (arith, h, v)

  validate_select-refused :
      (sql : String) (e : SqlValidationError) (d : Dict String)
      → get sql d ≡ none
      → validate_uncached g settings.max_sql_length sql ≡ raise e
      → validate_select g settings sql d ≡ (raise e, d)
  unfolding validate_select
  validate_select-refused sql e d h v = ground (arith, h, v)

  -- In such a memo `validate_select` answers what the checks answer, and it leaves such a memo.
  pub validate_select-validate_uncached :
      (sql : String) (d : Dict String)
      → IsReachable g settings d
      → ((validate_select g settings sql d).0 ≡ validate_uncached g settings.max_sql_length sql)
        × IsReachable g settings (validate_select g settings sql d).1
  unfolding IsSound
  validate_select-validate_uncached sql d r = elim (Option-cases (get sql d)) [
    | inr (cached, h) ↦
        rw (validate_select-hit sql cached d h) (sym (IsReachable-IsSound d r sql cached h), r)
    | inl h ↦ elim (Outcome-cases (validate_uncached g settings.max_sql_length sql)) [
      | inl (result, v) ↦ rw (validate_select-miss sql result d h v) (sym v, write d sql result r v)
      | inr (e, v) ↦ rw (validate_select-refused sql e d h v) (sym v, r)
    ]
  ]

  -- In such a memo `validate_select` accepts a text with an output exactly when `IsAccepted` holds.
  pub validate_select-IsAccepted :
      (sql out : String) (d : Dict String)
      → IsReachable g settings d
      → ((validate_select g settings sql d).0 ≡ ok out)
        ↔ IsAccepted g settings.max_sql_length sql out
  validate_select-IsAccepted sql out d r =
      rw (validate_select-validate_uncached sql d r).0
        (validate_uncached-IsAccepted g settings.max_sql_length sql out)
