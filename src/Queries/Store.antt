-- ===== src/Queries/Store.antt =====
-- What the scheduler and the refresher do with the payload of a run that succeeded. Whether the
-- database commits the log entry and the findings is an argument.
use fraud_analyzer_engine.Prelude.{ℕ, String, Bool, true, false, Option, none, some, if◌then◌else◌}
use fraud_analyzer_engine.Prelude.Outcome.{Outcome}
use fraud_analyzer_engine.Clock.{Clocks}
use fraud_analyzer_engine.Findings.{sync}
use fraud_analyzer_engine.ResultCache
use fraud_analyzer_engine.ResultCache.{PayloadOps}
use fraud_analyzer_engine.Queries.Defs.{
  Settings, SavedQuery, RunPayload, RunBody, QueryExecutionLog, Stores, RunError, as_dict,
  poll_interval_for, log_execution,
}

-- Of one run: what it gave, the clocks when it was stored and when it was over, the time of its
-- findings, and whether the log entry and the findings were committed.
pub record Run (V C : Type 0) : Type 0 where
  pub outcome : Outcome RunError (RunPayload V C)
  pub ended : Clocks
  pub seen_at : ℕ
  pub committed : Bool
  pub synced : Bool

-- the arguments of every run: the settings, `row_fingerprint`, and what `orjson` says of a payload
pub record Program (V C : Type 0) : Type 0 where
  pub settings : Settings
  pub row_fingerprint : V → String
  pub ops : PayloadOps (RunBody V C) C

unfoldable pub log_of :
    {V C : Type 0} → SavedQuery → Option String → RunPayload V C → QueryExecutionLog
log_of query user_id payload = record {
  query_id = query.id;
  success = true;
  row_count = some payload.row_count;
  duration_ms = some payload.duration_ms;
  error_code = none;
  user_id = user_id;
}

module _ {V C : Type 0} (program : Program V C) where
  -- `false` where an exception is raised
  unfoldable pub store_run :
      SavedQuery → Option String → Run V C → RunPayload V C → Stores V C → Bool × Stores V C
  unfolding log_of
  store_run query user_id run payload stores =
      let logs = log_execution run.committed (log_of query user_id payload) stores.logs in
      let interval = poll_interval_for program.settings query in
      elim (ResultCache.set program.ops program.settings.cache_max_bytes run.ended query.id
        payload.data_hash (as_dict payload interval) interval stores.results) [
          | none ↦ (false, record stores { logs = logs })
          | some (entry, results) ↦
              if run.synced
              then (
                true,
                record {
                  results = results;
                  findings =
                      (sync program.row_fingerprint run.seen_at query.id payload.columns
                        payload.rows payload.flags stores.findings).1;
                  logs = logs;
                },
              )
              else (false, record { results = results; findings = stores.findings; logs = logs })
        ]
