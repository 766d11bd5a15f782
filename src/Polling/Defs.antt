-- ===== src/Polling/Defs.antt =====
-- Running and polling one query, over the caches, the refresher, the findings and the dismissals. What
-- the target gives, and what the database and the thread pool answer, are arguments. A query's
-- connection is there, by its foreign key.
use fraud_analyzer_engine.Prelude.{
  ℕ, String, Bool, true, false, Option, none, some, List, ◌==◌, texts, if◌then◌else◌, not, ◌&&◌,
}
use fraud_analyzer_engine.Prelude.Outcome.{Outcome, ok, raise}
use fraud_analyzer_engine.Clock.{Clocks}
use fraud_analyzer_engine.Findings.{
  FlagDismissal, Payload, dismissed_fingerprints, apply_dismissals, sync,
}
use fraud_analyzer_engine.ResultCache
use fraud_analyzer_engine.ResultCache.{CacheEntry}
use fraud_analyzer_engine.Queries.{
  SavedQuery, RunPayload, RunBody, RunError, Stores, Run, Program, poll_interval_for, as_dict,
  log_execution, log_of,
}
use fraud_analyzer_engine.Refresher.{Refresher, request_refresh, log_of_failure}

pub data Answer (V C : Type 0) : Type 0 where
  -- `PollUnchanged`: the hash, the interval, and whether it came from the cache
  unchanged : String → ℕ → Bool → Answer V C
  changed : Payload (RunBody V C) → Bool → Answer V C

-- what a poll reads and writes
pub record Desk (V C : Type 0) : Type 0 where
  pub stores : Stores V C
  pub refresher : Refresher

-- The request: the hash that the reader has, whether to force a run, who asks and when; whether the pool
-- takes a refresh; and the run, if it comes to one.
pub record Poll (V C : Type 0) : Type 0 where
  pub since_hash : Option String
  pub force : Bool
  pub user_id : String
  pub now : Clocks
  pub submitted : Bool
  pub run : Run V C

-- what `apply_dismissals` reads of a body
unfoldable pub view : {V C : Type 0} → RunBody V C → Payload (RunBody V C)
view body = record {
  result = body;
  data_hash = body.payload.data_hash;
  flags = some body.payload.flags;
}

-- `since_hash and body["data_hash"] == since_hash`
unfoldable pub is_known : Option String → String → Bool
is_known none data_hash = false
is_known (some since) data_hash = not (since == "") && data_hash == since

unfoldable pub answer :
    {V C : Type 0} → Option String → ℕ → Bool → Payload (RunBody V C) → Answer V C
unfolding is_known
answer since_hash interval from_cache body =
    if is_known since_hash body.data_hash
    then Answer.unchanged body.data_hash interval from_cache
    else Answer.changed body from_cache

module _ {V C : Type 0} (program : Program V C) where
  -- The payload, or what is raised, and the stores.
  unfoldable pub execute_and_log :
      SavedQuery → String → Run V C → Stores V C → Outcome RunError (RunPayload V C) × Stores V C
  unfolding log_of log_of_failure
  execute_and_log query user_id run stores = elim run.outcome [
    | raise (RunError.app_error code) ↦ (
      raise (RunError.app_error code),
      record stores {
        logs =
            log_execution run.committed (log_of_failure query.id (some user_id) code) stores.logs;
      },
    )
    | raise RunError.other_error ↦ (raise RunError.other_error, stores)
    | ok payload ↦
        let logs = log_execution run.committed (log_of query (some user_id) payload) stores.logs in
        if run.synced
        then (
          ok payload,
          record stores {
            logs = logs;
            findings =
                (sync program.row_fingerprint run.seen_at query.id payload.columns payload.rows
                  payload.flags stores.findings).1;
          },
        )
        else (raise RunError.other_error, record stores { logs = logs })
  ]

  -- the fresh entry, or a stale one and a request for a refresh
  unfoldable pub cached_entry :
      SavedQuery → Poll V C → Desk V C → Option (CacheEntry (RunBody V C)) × Desk V C
  cached_entry query poll desk =
      if poll.force
      then (none, desk)
      else let (fresh, results) = ResultCache.get poll.now query.id desk.stores.results in
        elim fresh [
          | some entry ↦
              (some entry, record desk { stores = record desk.stores { results = results } })
          | none ↦
              let (stale, results') =
                ResultCache.get_stale program.settings.cache_stale_grace_ms poll.now query.id
                  results in
              let kept = record desk.stores { results = results' } in
              elim stale [
                | none ↦ (none, record desk { stores = kept })
                | some entry ↦ (
                  some entry,
                  record {
                    stores = kept;
                    refresher = (request_refresh query.id poll.now poll.submitted desk.refresher).1;
                  },
                )
              ]
        ]

  module _ (stamp : List String → String) where
    -- of a poll that the cache does not answer
    unfoldable pub poll_run :
        SavedQuery → Poll V C → List String → Desk V C → Outcome RunError (Answer V C) × Desk V C
    unfolding execute_and_log answer view
    poll_run query poll dismissed desk =
        let interval = poll_interval_for program.settings query in
        let (executed, stores) = execute_and_log query poll.user_id poll.run desk.stores in
        elim executed [
          | raise e ↦ (raise e, record desk { stores = stores })
          | ok payload ↦
              let body = as_dict payload interval in
              elim (ResultCache.set program.ops program.settings.cache_max_bytes poll.run.ended
                query.id payload.data_hash body interval stores.results) [
                  | none ↦ (raise RunError.other_error, record desk { stores = stores })
                  | some (entry, results) ↦ (
                    ok (
                        answer poll.since_hash interval false
                          (apply_dismissals stamp dismissed (view body))),
                    record desk { stores = record stores { results = results } },
                  )
                ]
        ]

    unfoldable pub poll_one :
        SavedQuery
        → Poll V C
        → List FlagDismissal
        → Desk V C
        → Outcome RunError (Answer V C) × Desk V C
    unfolding cached_entry poll_run
    poll_one query poll dismissals desk =
        let dismissed = dismissed_fingerprints query.id poll.user_id dismissals in
        let (cached, desk') = cached_entry query poll desk in
        elim cached [
          | some entry ↦ (
            ok (
                answer poll.since_hash (poll_interval_for program.settings query) true
                  (apply_dismissals stamp dismissed (view entry.payload))),
            desk',
          )
          | none ↦ poll_run query poll dismissed desk'
        ]
