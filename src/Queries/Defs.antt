-- ===== src/Queries/Defs.antt =====
-- What the poll, the scheduler and the refresher share: a query, its interval, the payload of a run,
-- the log of runs, and the stores that a run is recorded in. The rows are of a parameter type `V`, and
-- the charts of a payload of a parameter type `C`.
use fraud_analyzer_engine.Prelude.{
  ℕ, String, Bool, Option, none, some, List, [], ◌∷◌, ◌++◌, ◌==◌, numbers, if◌then◌else◌,
}
use fraud_analyzer_engine.FlagRules.{RuleSpec}
use fraud_analyzer_engine.Findings.{Flags, FlaggedTable}
use fraud_analyzer_engine.Lru.{Held}
use fraud_analyzer_engine.ResultCache.{CacheEntry}

-- the settings that the run paths read
pub record Settings : Type 0 where
  pub poll_interval_ms : ℕ
  pub scheduler_min_interval_ms : ℕ
  pub scheduler_max_backoff_ms : ℕ
  pub cache_max_bytes : ℕ
  pub cache_stale_grace_ms : ℕ

pub record Connection : Type 0 where
  pub id : String
  pub paused : Bool

pub record SavedQuery : Type 0 where
  pub id : String
  pub connection_id : String
  pub sql_text : String
  pub row_limit : ℕ
  pub poll_interval_ms : Option ℕ
  pub flag_rules : List RuleSpec

-- `query.poll_interval_ms or get_settings().poll_interval_ms`
unfoldable pub poll_interval_for : Settings → SavedQuery → ℕ
poll_interval_for settings query = elim query.poll_interval_ms [
  | none ↦ settings.poll_interval_ms
  | some ms ↦ if ms == 0 then settings.poll_interval_ms else ms
]

pub record RunPayload (V C : Type 0) : Type 0 where
  pub query_id : String
  pub executed_at : ℕ
  pub duration_ms : ℕ
  pub row_count : ℕ
  pub truncated : Bool
  pub data_hash : String
  pub columns : List String
  pub rows : List V
  pub charts : List C
  pub flags : Flags

-- the response body: the payload, and the interval
pub record RunBody (V C : Type 0) : Type 0 where
  pub payload : RunPayload V C
  pub poll_interval_ms : ℕ

unfoldable pub as_dict : {V C : Type 0} → RunPayload V C → ℕ → RunBody V C
as_dict payload interval = record { payload = payload; poll_interval_ms = interval }

-- An `AppError`, with its code, or any other exception.
pub data RunError : Type 0 where
  app_error : String → RunError
  other_error : RunError

pub record QueryExecutionLog : Type 0 where
  pub query_id : String
  pub success : Bool
  pub row_count : Option ℕ
  pub duration_ms : Option ℕ
  pub error_code : Option String
  pub user_id : Option String

-- An entry that cannot be committed is dropped, and nothing is raised.
unfoldable pub log_execution :
    Bool → QueryExecutionLog → List QueryExecutionLog → List QueryExecutionLog
log_execution committed entry logs = if committed then logs ++ entry ∷ [] else logs

-- what runs leave behind: the result cache, the stored findings and the execution log
pub record Stores (V C : Type 0) : Type 0 where
  pub results : Held (CacheEntry (RunBody V C))
  pub findings : FlaggedTable V
  pub logs : List QueryExecutionLog
