-- ===== src/Tests/Retention.antt =====
-- prune_execution_logs of services/analyzer/app/features/queries/service.py on a small log.
use fraud_analyzer_engine.Prelude.{
  ℕ, ◌+◌, ◌≤◌, min, String, ◌≡◌, refl, Option, none, some, List, [], ◌∷◌, arith, length,
}
use fraud_analyzer_engine.Retention.{LogRow, LogSettings, prune_execution_logs, rows_of, drop_old}
use fraud_analyzer_engine.Retention.Trimmed.{LeftNewer}
use fraud_analyzer_engine.Retention.Pruned.{
  prune_execution_logs-LeftNewer, prune_execution_logs-length, prune_execution_logs-min,
}

abbrev row : String → Option String → ℕ → LogRow
row id query_id executed_at = record { id = id; query_id = query_id; executed_at = executed_at }

abbrev logs : List LogRow
logs =
    row "1" (some "q") 500_000
    ∷ row "2" none 10
    ∷ row "3" (some "q") 500_020
    ∷ row "4" (some "p") 500_005
    ∷ row "5" (some "q") 500_010
    ∷ row "6" (some "q") 7
    ∷ []

abbrev settings : LogSettings
settings = record { log_retention_days = 1; max_logs_per_query = 2 }

pruned :
    prune_execution_logs settings 500_100 logs
    ≡ (3, row "3" (some "q") 500_020 ∷ row "4" (some "p") 500_005 ∷ row "5" (some "q") 500_010 ∷ [])
unfolding prune_execution_logs
pruned = refl

-- Three runs of one moment, of which two should stay.
abbrev tied : List LogRow
tied = row "1" (some "q") 5 ∷ row "2" (some "q") 5 ∷ row "3" (some "q") 5 ∷ []

ties_all_go :
    prune_execution_logs (record { log_retention_days = 0; max_logs_per_query = 2 }) 9 tied
    ≡ (3, [])
unfolding prune_execution_logs
ties_all_go = refl

prune_execution_logs-LeftNewer_example :
    LeftNewer (some "q") logs (prune_execution_logs settings 500_100 logs).1
    × ((prune_execution_logs settings 500_100 logs).0
          + length (prune_execution_logs settings 500_100 logs).1
        ≡ 6)
prune_execution_logs-LeftNewer_example =
    prune_execution_logs-LeftNewer settings 500_100 logs (some "q")

prune_execution_logs-length_example :
    length (rows_of (some "q") (prune_execution_logs settings 500_100 logs).1) ≤ 2
prune_execution_logs-length_example =
    prune_execution_logs-length settings 500_100 logs "q" (omega arith)

prune_execution_logs-min_example :
    length (rows_of (some "q") (prune_execution_logs settings 500_100 logs).1)
    ≡ min 2 (length (rows_of (some "q") (drop_old 500_100 1 logs).1))
prune_execution_logs-min_example =
    prune_execution_logs-min settings 500_100 logs "q" (omega arith) (λ (t : ℕ). ground arith)
