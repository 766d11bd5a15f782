-- ===== src/Retention/Pruned.antt =====
-- What is left of each query's log, and how many rows the pruning reports.
use fraud_analyzer_engine.Prelude.{
  ℕ, min, ◌+◌, ◌≤◌, ◌<◌, ◌≡◌, String, true, false, ◌&&◌, Option, some, List, [], ◌∷◌, arith, ltb,
  leb, ◌==◌, texts, eq_iff, length, get_elem?, inl, inr, Bool-cases, Option-cases,
}
use fraud_analyzer_engine.Retention.Defs.{
  LogRow, LogSettings, span, past, rows_of, times, newest_first, over_quota, trim_query,
  trim_queries, trim_per_query, drop_old, prune_execution_logs,
}
use fraud_analyzer_engine.Retention.Newest.{count_at, count_after-ge}
use fraud_analyzer_engine.Retention.Deleted.{
  newer, length-newer, rows_of-remaining_same, rows_of-remaining_other, rowcount-remaining,
}
use fraud_analyzer_engine.Retention.Trimmed.{
  LeftNewer, LeftNewer-le, LeftNewer-trans, LeftNewer-same, trim_queries-LeftNewer,
  drop_old-LeftNewer, trim_per_query-length, trim_query-none, trim_query-some, trim_query-LeftNewer,
}

trim_query-rowcount :
    (keep : ℕ) (q : String) (logs : List LogRow)
    → (trim_query keep q logs).0 + length (trim_query keep q logs).1 ≡ length logs
trim_query-rowcount keep q logs =
    elim (Option-cases (get_elem? (newest_first (times (rows_of (some q) logs))) keep)) [
      | inl e ↦ rw (trim_query-none keep q logs e) (omega arith)
      | inr (cutoff, e) ↦
          rw (trim_query-some keep q logs cutoff e) (rowcount-remaining (past q cutoff) logs)
    ]

trim_queries-rowcount :
    (keep : ℕ) (ids : List String) (logs : List LogRow)
    → (trim_queries keep ids logs).0 + length (trim_queries keep ids logs).1 ≡ length logs
unfolding trim_queries
trim_queries-rowcount keep [] logs = omega arith
trim_queries-rowcount keep (q ∷ ids) logs = omega (
  arith,
  trim_query-rowcount keep q logs,
  trim_queries-rowcount keep ids (trim_query keep q logs).1,
)

drop_old-rowcount :
    (now days : ℕ) (logs : List LogRow)
    → (drop_old now days logs).0 + length (drop_old now days logs).1 ≡ length logs
unfolding drop_old
drop_old-rowcount now days logs = elim (Bool-cases (ltb 0 days)) [
  | inr h ↦ rw h (omega arith)
  | inl h ↦ rw h (rowcount-remaining (λ r. ltb (r.executed_at + span days) now) logs)
]

module _ (settings : LogSettings) (now : ℕ) (logs : List LogRow) where
  -- What is left of each query, and of the previews, are its rows of some moment or later, in their
  -- order, and the number reported is that of the rows that went.
  pub prune_execution_logs-LeftNewer :
      (query : Option String)
      → LeftNewer query logs (prune_execution_logs settings now logs).1
        × ((prune_execution_logs settings now logs).0
              + length (prune_execution_logs settings now logs).1
            ≡ length logs)
  unfolding prune_execution_logs trim_per_query
  prune_execution_logs-LeftNewer query =
      let aged = drop_old now settings.log_retention_days logs in
      let keep = settings.max_logs_per_query in
      let dropped = drop_old-LeftNewer now settings.log_retention_days query logs in
      let counted = drop_old-rowcount now settings.log_retention_days logs in
      elim (Bool-cases (leb settings.log_retention_days 0 && leb keep 0)) [
        | inl off ↦ rw off (LeftNewer-same query logs, omega arith)
        | inr on ↦ elim (Bool-cases (ltb 0 keep)) [
          | inr no_depth ↦ rw (on, no_depth) (dropped, counted)
          | inl depth ↦
              rw (on, depth)
                (
                  LeftNewer-trans query logs aged.1 (trim_per_query keep aged.1).1 dropped
                      (trim_queries-LeftNewer keep query (over_quota keep aged.1) aged.1),
                  omega
                      (arith, counted, trim_queries-rowcount keep (over_quota keep aged.1) aged.1),
                )
        ]
      ]

  -- Where the depth is bounded, no query keeps more rows than the bound.
  pub prune_execution_logs-length :
      (q : String)
      → 0 < settings.max_logs_per_query
      → length (rows_of (some q) (prune_execution_logs settings now logs).1)
        ≤ settings.max_logs_per_query
  unfolding prune_execution_logs
  prune_execution_logs-length q h = ground (
    arith,
    trim_per_query-length settings.max_logs_per_query q
        (drop_old now settings.log_retention_days logs).1,
  )

count_at-newer-le :
    (c since : ℕ) (logs : List LogRow)
    → count_at c (times (newer since logs)) ≤ count_at c (times logs)
count_at-newer-le c since [] = omega arith
count_at-newer-le c since (r ∷ logs) = ground (arith, count_at-newer-le c since logs)

-- No two rows of the query were made at one moment.
abbrev pub DistinctMoments : String → List LogRow → Type 0
DistinctMoments q logs = (t : ℕ) → count_at t (times (rows_of (some q) logs)) ≤ 1

LeftNewer-distinct :
    (q : String) (logs out : List LogRow)
    → LeftNewer (some q) logs out
    → DistinctMoments q logs
    → DistinctMoments q out
LeftNewer-distinct q logs out (since, e) d t =
    rw e (omega (arith, d t, count_at-newer-le t since (rows_of (some q) logs)))

trim_query-keeps_same :
    (keep : ℕ) (q : String) (logs : List LogRow)
    → DistinctMoments q logs
    → min keep (length (rows_of (some q) logs))
      ≤ length (rows_of (some q) (trim_query keep q logs).1)
trim_query-keeps_same keep q logs d =
    let rows = rows_of (some q) logs in
    elim (Option-cases (get_elem? (newest_first (times rows)) keep)) [
      | inl e ↦ rw (trim_query-none keep q logs e) (omega arith)
      | inr (cutoff, e) ↦
          rw (trim_query-some keep q logs cutoff e, rows_of-remaining_same q cutoff logs)
            (omega (
              arith,
              d cutoff,
              length-newer cutoff rows,
              count_after-ge cutoff (times rows) keep e,
            ))
    ]

trim_query-keeps :
    (keep : ℕ) (p q : String) (logs : List LogRow)
    → DistinctMoments q logs
    → min keep (length (rows_of (some q) logs))
      ≤ length (rows_of (some q) (trim_query keep p logs).1)
trim_query-keeps keep p q logs d = elim (Bool-cases (p == q)) [
  | inl same ↦ rw ((eq_iff p q).0 same) (trim_query-keeps_same keep q logs d)
  | inr other ↦
      elim (Option-cases (get_elem? (newest_first (times (rows_of (some p) logs))) keep)) [
        | inl e ↦ rw (trim_query-none keep p logs e) (omega arith)
        | inr (cutoff, e) ↦
            rw
              (
                trim_query-some keep p logs cutoff e,
                rows_of-remaining_other (some q) p cutoff logs
                    (ground (arith, eq_iff q p, eq_iff p q)),
              )
              (omega arith)
      ]
]

trim_queries-keeps :
    (keep : ℕ) (q : String) (ids : List String) (logs : List LogRow)
    → DistinctMoments q logs
    → min keep (length (rows_of (some q) logs))
      ≤ length (rows_of (some q) (trim_queries keep ids logs).1)
unfolding trim_queries
trim_queries-keeps keep q [] logs d = omega arith
trim_queries-keeps keep q (p ∷ ids) logs d =
    let next = (trim_query keep p logs).1 in
    omega (
      arith,
      trim_query-keeps keep p q logs d,
      trim_queries-keeps keep q ids next
          (LeftNewer-distinct q logs next (trim_query-LeftNewer keep p (some q) logs) d),
    )

-- Where the depth is bounded and no two rows of a query were made at one moment, just as many of its
-- rows stay as the bound allows, of those that the window of days leaves.
pub prune_execution_logs-min :
    (settings : LogSettings) (now : ℕ) (logs : List LogRow) (q : String)
    → 0 < settings.max_logs_per_query
    → DistinctMoments q logs
    → length (rows_of (some q) (prune_execution_logs settings now logs).1)
      ≡ min settings.max_logs_per_query
          (length (rows_of (some q) (drop_old now settings.log_retention_days logs).1))
unfolding prune_execution_logs trim_per_query
prune_execution_logs-min settings now logs q h d =
    let keep = settings.max_logs_per_query in
    let aged = drop_old now settings.log_retention_days logs in
    let depth : ltb 0 keep ≡ true = ground arith in
    let on : (leb settings.log_retention_days 0 && leb keep 0) ≡ false = ground arith in
    let within = trim_per_query-length keep q aged.1 in
    rw (on, depth)
      (omega (
        arith,
        within,
        LeftNewer-le (some q) aged.1 (trim_per_query keep aged.1).1
            (trim_queries-LeftNewer keep (some q) (over_quota keep aged.1) aged.1),
        trim_queries-keeps keep q (over_quota keep aged.1) aged.1 (
            LeftNewer-distinct q logs aged.1
              (drop_old-LeftNewer now settings.log_retention_days (some q) logs) d),
      ))
