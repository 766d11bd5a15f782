-- ===== src/SavedQueries/Refresh.antt =====
-- The refresh of a connection: flagged_for_connection and _run_one of
-- services/analyzer/app/features/flag_rules/service.py. What the run of a query gives is an argument,
-- and so is the code that `translate_db_error` gives to an exception. Of a section, here is the query
-- and the error that is reported against it.
use fraud_analyzer_engine.Prelude.{
  ℕ, String, Bool, true, false, not, ◌&&◌, ◌||◌, Option, none, some, List, [], ◌∷◌, ltb, ◌==◌,
  texts, if◌then◌else◌, length, any,
}
use fraud_analyzer_engine.Prelude.Outcome.{ok, raise}
use fraud_analyzer_engine.Accounts.{User, is_admin}
use fraud_analyzer_engine.Execution.{take}
use fraud_analyzer_engine.Queries.{
  SavedQuery, QueryExecutionLog, RunError, Stores, Run, Program, log_execution, store_run,
}
use fraud_analyzer_engine.SavedQueries.Defs.{StoredQuery, Db, is_owner, queries_with_rules}

-- the row as the runs read it
abbrev pub run_view : StoredQuery → SavedQuery
run_view q = record {
  id = q.id;
  connection_id = q.connection_id;
  sql_text = q.sql_text;
  row_limit = q.row_limit;
  poll_interval_ms = q.poll_interval_ms;
  flag_rules = q.flag_rules;
}

abbrev pub is_in : String → List String → Bool
is_in id ids = any (λ (i : String). i == id) ids

abbrev pub ids_of : List StoredQuery → List String
ids_of [] = []
ids_of (q ∷ queries) = q.id ∷ ids_of queries

abbrev pub keep : (StoredQuery → Bool) → List StoredQuery → List StoredQuery
keep test [] = []
keep test (q ∷ queries) = if test q then q ∷ keep test queries else keep test queries

-- What is shown, what may be run of it, and whether some of the caller's own were left out.
pub record Plan : Type 0 where
  pub queries : List StoredQuery
  pub runnable : List String
  pub truncated : Bool

abbrev pub may_run : User → StoredQuery → Bool
may_run user q = is_admin user || is_owner user q

unfoldable pub plan_refresh : ℕ → User → List StoredQuery → Bool → Plan
plan_refresh max_queries user queries refresh =
    let runnable = ids_of (keep (may_run user) queries) in
    let mine = keep (λ (q : StoredQuery). is_in q.id runnable) queries in
    let kept = ids_of (take max_queries mine) in
    if refresh && ltb max_queries (length mine)
    then record {
      queries = keep (λ (q : StoredQuery). is_in q.id kept || not (is_in q.id runnable)) queries;
      runnable = kept;
      truncated = true;
    }
    else record { queries = queries; runnable = runnable; truncated = false }

pub record Refreshed (V C : Type 0) : Type 0 where
  pub fine : Bool
  pub executed : List String
  pub sections : List (String × Option String)
  pub stores : Stores V C

module _ {V C : Type 0} (program : Program V C) (translated : String) (user : User) where
  abbrev pub error_code : RunError → String
  error_code (RunError.app_error code) = code
  error_code RunError.other_error = translated

  failed_log : StoredQuery → String → QueryExecutionLog
  failed_log query code = record {
    query_id = query.id;
    success = false;
    row_count = none;
    duration_ms = none;
    error_code = some code;
    user_id = some user.id;
  }

  -- whether it returns, the error it returns, and the stores
  unfoldable pub run_one : StoredQuery → Run V C → Stores V C → Bool × Option String × Stores V C
  unfolding failed_log
  run_one query run stores = elim run.outcome [
    | raise e ↦ (
      true,
      some (error_code e),
      record stores {
        logs = log_execution run.committed (failed_log query (error_code e)) stores.logs;
      },
    )
    | ok payload ↦
        let (fine, stores') =
          store_run program (run_view query) (some user.id) run payload stores in
        (fine, none, stores')
  ]

  -- the loop; an exception ends it
  unfoldable pub visit_queries :
      (String → Run V C) → Bool → List String → List StoredQuery → Stores V C → Refreshed V C
  unfolding run_one
  visit_queries runs refresh runnable [] stores = record {
    fine = true;
    executed = [];
    sections = [];
    stores = stores;
  }
  visit_queries runs refresh runnable (query ∷ queries) stores =
      let (fine, error, stores') = run_one query (runs query.id) stores in
      let after_run = visit_queries runs refresh runnable queries stores' in
      let after_none = visit_queries runs refresh runnable queries stores in
      if refresh && is_in query.id runnable
      then (if fine
          then record after_run {
            executed = query.id ∷ after_run.executed;
            sections = (query.id, error) ∷ after_run.sections;
          }
          else record { fine = false; executed = query.id ∷ []; sections = []; stores = stores' })
      else record after_none { sections = (query.id, none) ∷ after_none.sections }

  unfoldable pub flagged_for_connection :
      ℕ → Db → String → Bool → (String → Run V C) → Stores V C → Refreshed V C
  unfolding plan_refresh visit_queries queries_with_rules
  flagged_for_connection max_queries db connection_id refresh runs stores =
      let plan = plan_refresh max_queries user (queries_with_rules db connection_id user) refresh in
      visit_queries runs refresh plan.runnable plan.queries stores
