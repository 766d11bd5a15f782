-- ===== src/SqlGuard/Memo.antt =====
-- `validate_select` and its memo of acceptances, which the threads share. A thread reads the memo,
-- checks the text, and writes under the lock; others write in between.
use fraud_analyzer_engine.Prelude.{
  ℕ, ◌≡◌, String, none, some, [], ◌∷◌, ltb, texts, if◌then◌else◌, length,
}
use fraud_analyzer_engine.Prelude.Outcome.{Outcome, ok, raise}
use fraud_analyzer_engine.Dict.{Dict, get, put_last}
use fraud_analyzer_engine.SqlGuard.Defs.{Guard, SqlValidationError}
use fraud_analyzer_engine.SqlGuard.Validate.{validate_uncached}

pub record Settings : Type 0 where
  pub max_sql_length : ℕ
  pub sql_validation_cache_size : ℕ

-- `while len(_validated) > limit: popitem(last=False)`
unfoldable pub trim : ℕ → Dict String → Dict String
trim limit [] = []
trim limit (e ∷ d) = let rest = trim limit d in if ltb limit (length (e ∷ d)) then rest else e ∷ d

-- the block under the lock
unfoldable pub remember : ℕ → String → String → Dict String → Dict String
unfolding trim
remember limit sql result validated =
    if ltb 0 limit then trim limit (put_last sql result validated) else validated

unfoldable pub clear_validation_cache : Dict String → Dict String
clear_validation_cache validated = []

module _ (g : Guard) (settings : Settings) where
  -- for a text; anything else is refused as empty
  unfoldable pub validate_select :
      String → Dict String → Outcome SqlValidationError String × Dict String
  unfolding remember
  validate_select sql validated = elim (get sql validated) [
    | some cached ↦ (ok cached, validated)
    | none ↦ elim (validate_uncached g settings.max_sql_length sql) [
      | raise e ↦ (raise e, validated)
      | ok result ↦ (ok result, remember settings.sql_validation_cache_size sql result validated)
    ]
  ]

  -- The memos that threads can produce in any order: one writes what it has found for a text, at any
  -- later time, or the memo is cleared.
  pub data IsReachable : Dict String → Type 0 where
    start : IsReachable []
    write :
        (validated : Dict String) (sql result : String)
        → IsReachable validated
        → validate_uncached g settings.max_sql_length sql ≡ ok result
        → IsReachable (remember settings.sql_validation_cache_size sql result validated)
    clear :
        (validated : Dict String)
        → IsReachable validated
        → IsReachable (clear_validation_cache validated)
