-- ===== src/Retention/Defs.antt =====
-- The log is a list of rows. A moment is a number of seconds, and `timedelta(days=n)` so many of
-- them.
use fraud_analyzer_engine.Prelude.{
  ℕ, ◌+◌, ◌*◌, String, Bool, ◌&&◌, Option, none, some, List, [], ◌∷◌, ltb, leb, ◌==◌, texts,
  if◌then◌else◌, length, get_elem?, any, same_option,
}

pub record LogRow : Type 0 where
  pub id : String
  pub query_id : Option String
  pub executed_at : ℕ

pub record LogSettings : Type 0 where
  pub log_retention_days : ℕ
  pub max_logs_per_query : ℕ

abbrev pub span : ℕ → ℕ
span days = days * 86_400

-- `delete(...).where(...)`: the rows that stay, and the number of those that go
abbrev pub remaining : (LogRow → Bool) → List LogRow → List LogRow
remaining p [] = []
remaining p (r ∷ logs) = if p r then remaining p logs else r ∷ remaining p logs

abbrev pub rowcount : (LogRow → Bool) → List LogRow → ℕ
rowcount p [] = 0
rowcount p (r ∷ logs) = if p r then rowcount p logs + 1 else rowcount p logs

abbrev pub is_of : Option String → LogRow → Bool
is_of query r = same_option r.query_id query

abbrev pub rows_of : Option String → List LogRow → List LogRow
rows_of query [] = []
rows_of query (r ∷ logs) = if is_of query r then r ∷ rows_of query logs else rows_of query logs

abbrev pub times : List LogRow → List ℕ
times [] = []
times (r ∷ logs) = r.executed_at ∷ times logs

unfoldable pub place : ℕ → List ℕ → List ℕ
place t [] = t ∷ []
place t (u ∷ us) = if leb u t then t ∷ u ∷ us else u ∷ place t us

-- `order_by(executed_at.desc())`
unfoldable pub newest_first : List ℕ → List ℕ
unfolding place
newest_first [] = []
newest_first (t ∷ ts) = place t (newest_first ts)

-- the ids of the groups, each once
unfoldable pub groups : List LogRow → List String
groups [] = []
groups (r ∷ logs) =
    let rest = groups logs in
    elim r.query_id [
      | none ↦ rest
      | some q ↦ if any (λ (p : String). p == q) rest then rest else q ∷ rest
    ]

unfoldable pub over : ℕ → List LogRow → List String → List String
over keep logs [] = []
over keep logs (q ∷ ids) =
    if ltb keep (length (rows_of (some q) logs)) then q ∷ over keep logs ids else over keep logs ids

unfoldable pub over_quota : ℕ → List LogRow → List String
unfolding groups over
over_quota keep logs = over keep logs (groups logs)

-- the rows of a query up to a moment
abbrev pub past : String → ℕ → LogRow → Bool
past q cutoff r = is_of (some q) r && leb r.executed_at cutoff

unfoldable pub trim_at : String → Option ℕ → List LogRow → ℕ × List LogRow
trim_at q none logs = (0, logs)
trim_at q (some cutoff) logs = (rowcount (past q cutoff) logs, remaining (past q cutoff) logs)

-- one round of the loop
unfoldable pub trim_query : ℕ → String → List LogRow → ℕ × List LogRow
unfolding newest_first trim_at
trim_query keep q logs =
    trim_at q (get_elem? (newest_first (times (rows_of (some q) logs))) keep) logs

unfoldable pub trim_queries : ℕ → List String → List LogRow → ℕ × List LogRow
unfolding trim_query
trim_queries keep [] logs = (0, logs)
trim_queries keep (q ∷ ids) logs =
    let (removed, logs') = trim_query keep q logs in
    let (more, out) = trim_queries keep ids logs' in (removed + more, out)

unfoldable pub trim_per_query : ℕ → List LogRow → ℕ × List LogRow
unfolding trim_queries over_quota
trim_per_query keep logs = trim_queries keep (over_quota keep logs) logs

-- the rows of before the cutoff
unfoldable pub drop_old : ℕ → ℕ → List LogRow → ℕ × List LogRow
drop_old now days logs =
    let old = λ (r : LogRow). ltb (r.executed_at + span days) now in
    if ltb 0 days then (rowcount old logs, remaining old logs) else (0, logs)

unfoldable pub prune_execution_logs : LogSettings → ℕ → List LogRow → ℕ × List LogRow
unfolding drop_old trim_per_query
prune_execution_logs settings now logs =
    if leb settings.log_retention_days 0 && leb settings.max_logs_per_query 0
    then (0, logs)
    else (let (removed, logs') = drop_old now settings.log_retention_days logs in
        if ltb 0 settings.max_logs_per_query
        then (let (more, out) = trim_per_query settings.max_logs_per_query logs' in
            (removed + more, out))
        else (removed, logs'))
