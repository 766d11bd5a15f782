-- ===== src/Tests/Queries.antt =====
-- The scheduler, the refresher and the poll of services/analyzer/app/features/queries/ on one query,
-- whose rows are texts.
use fraud_analyzer_engine.Prelude.{
  ℕ, suc, ◌*◌, ◌^◌, min, max, String, ◌≡◌, refl, true, false, ◌||◌, none, some, List, [], ◌∷◌,
  arith, length, texts, numbers,
}
use fraud_analyzer_engine.Prelude.Outcome.{ok, raise}
use fraud_analyzer_engine.Dict
use fraud_analyzer_engine.Dict.{Dict}
use fraud_analyzer_engine.Clock.{Clocks, is_over, elapsed_ms}
use fraud_analyzer_engine.Lru.{empty, admit, evict, drop}
use fraud_analyzer_engine.Findings.{
  Flags, FlagDismissal, rows_of, dismissed_fingerprints, uncleared,
}
use fraud_analyzer_engine.ResultCache
use fraud_analyzer_engine.ResultCache.{PayloadOps}
use fraud_analyzer_engine.Queries.{
  Settings, Connection, SavedQuery, RunPayload, RunBody, RunError, Stores, Run, Program,
  poll_interval_for,
}
use fraud_analyzer_engine.Scheduler.{
  Schedule, Visit, is_due, reschedule, run_due_once, due_queries, interval_for,
}
use fraud_analyzer_engine.Scheduler.Backoff.{
  failed_runs, failed_runs-is_due, reschedule-due_again, reschedule-not_before,
}
use fraud_analyzer_engine.Scheduler.Ticks.{run_due_once-Agrees}
use fraud_analyzer_engine.Refresher.{request_refresh, refresh}
use fraud_analyzer_engine.Refresher.Flights.{
  Pool, Step, Reach, IsSingle, requested, refreshed, runs_of, idle, Reach-IsSingle,
}
use fraud_analyzer_engine.Refresher.Cooldown.{request-refresh, has_succeeded}
use fraud_analyzer_engine.Polling.{Desk, Poll, poll_one, cached_entry}
use fraud_analyzer_engine.Polling.Shown.{shown, poll_one-shown, poll_one-cached}
use fraud_analyzer_engine.Tests.FlagRules.{large}

abbrev pub ops : PayloadOps (RunBody String ℕ) ℕ
ops = record { dumps_len = λ body. some 5; columns = λ body. []; with_charts = λ charts body. body }

abbrev pub settings : Settings
settings = record {
  poll_interval_ms = 5;
  scheduler_min_interval_ms = 10;
  scheduler_max_backoff_ms = 50;
  cache_max_bytes = 100;
  cache_stale_grace_ms = 1000;
}

abbrev pub program : Program String ℕ
program = record { settings = settings; row_fingerprint = λ s. s; ops = ops }

abbrev query : SavedQuery
query = record {
  id = "q";
  connection_id = "c";
  sql_text = "SELECT 1";
  row_limit = 10;
  poll_interval_ms = some 20;
  flag_rules = large ∷ [];
}

abbrev pub at : ℕ → Clocks
at t = record { mono = t; wall = t }

abbrev unscheduled : Schedule
unscheduled = record { next_due = []; next_due_wall = []; backoff = [] }

abbrev pub failure : Run String ℕ
failure = record {
  outcome = raise (RunError.app_error "TARGET_UNREACHABLE");
  ended = at 7000;
  seen_at = 1;
  committed = true;
  synced = true;
}

abbrev pub no_stores : Stores String ℕ
no_stores = record { results = empty; findings = []; logs = [] }

-- twice the interval of 20, and then the longest backoff
failed_runs-is_due_example :
    is_due "q" (at 60000) (failed_runs settings query (at 7000 ∷ at 2000 ∷ []) unscheduled)
    ≡ is_over
        (at 7000)
        (min (interval_for settings query * min (2 ^ suc (length (at 2000 ∷ []))) 65536) 50)
        (at 60000)
unfolding Dict.get
failed_runs-is_due_example =
    failed_runs-is_due settings query unscheduled (at 7000) (at 60000) (at 2000 ∷ []) refl

reschedule-due_again_example :
    is_due "q" (at 57000) (reschedule settings query true (at 7000) unscheduled) ≡ true
unfolding is_over interval_for poll_interval_for
reschedule-due_again_example =
    reschedule-due_again settings query true (at 7000) (at 57000) unscheduled refl

reschedule-not_before_example : is_over (at 7000) 10 (at 57000) ≡ true
unfolding is_due Dict.get reschedule Dict.set poll_interval_for
reschedule-not_before_example =
    reschedule-not_before settings query true (at 7000) (at 57000) unscheduled (omega arith) refl

abbrev connections : Dict Connection
connections = ("c", record { id = "c"; paused = false }) ∷ []

abbrev other_query : SavedQuery
other_query = record query { id = "p"; flag_rules = [] }

abbrev visit : Visit String ℕ
visit = record { started = at 6000; run = failure }

run_due_once-Agrees_example :
    let (r, s', stores') =
      run_due_once program connections
        (λ q. at 6000)
        (λ q. visit)
        (query ∷ other_query ∷ [])
        unscheduled
        no_stores in
    (is_due "p" (at 8000) s' ≡ is_due "p" (at 8000) unscheduled)
    × (rows_of "p" stores'.findings ≡ rows_of "p" [])
unfolding due_queries Dict.get
run_due_once-Agrees_example =
    run_due_once-Agrees program connections (λ q. at 6000) (λ q. visit) (query ∷ other_query ∷ [])
      unscheduled no_stores "p" (at 8000) refl

abbrev queries : Dict SavedQuery
queries = ("q", query) ∷ []

abbrev one_in_flight : Pool
one_in_flight = requested "q" (at 0) true idle

-- a second request while the first runs, and its failure
flown : Reach program (
    refreshed program queries connections "q"
      (some "ann")
      failure
      no_stores
      (requested "q" (at 1) true one_in_flight))
unfolding requested refreshed runs_of request_refresh idle Dict.get
flown =
    Reach.next
      (Reach.next (Reach.next Reach.start (Step.request idle "q" (at 0) true))
        (Step.request one_in_flight "q" (at 1) true))
      (Step.finish (requested "q" (at 1) true one_in_flight) queries connections "q" (some "ann")
        failure no_stores (omega arith))

Reach-IsSingle_example : IsSingle (
    refreshed program queries connections "q"
      (some "ann")
      failure
      no_stores
      (requested "q" (at 1) true one_in_flight))
Reach-IsSingle_example =
    Reach-IsSingle program
      (refreshed program queries connections "q" (some "ann") failure no_stores
        (requested "q" (at 1) true one_in_flight))
      flown

request-refresh_example :
    (request_refresh "q"
      (at 20000)
      true
      (refresh program queries connections "q" none failure one_in_flight.refresher no_stores).0).0
    ≡ (has_succeeded program query none failure no_stores
        || is_over (at 7000) (max (poll_interval_for settings query) 1) (at 20000))
unfolding Dict.get
request-refresh_example =
    request-refresh program queries connections "q" none failure (at 20000) one_in_flight.refresher
      no_stores query (record { id = "c"; paused = false }) refl refl refl

abbrev no_flags : Flags
no_flags = record {
  rows = [];
  rules = [];
  flagged_count = 0;
  dismissed_count = none;
  warnings = [];
}

abbrev found : RunPayload String ℕ
found = record {
  query_id = "q";
  executed_at = 1;
  duration_ms = 2;
  row_count = 1;
  truncated = false;
  data_hash = "h";
  columns = "c" ∷ [];
  rows = "a" ∷ [];
  charts = [];
  flags = record no_flags {
    rows = record { index = 0; rule_ids = "r" ∷ []; fingerprint = some "a" } ∷ [];
    flagged_count = 1;
  };
}

abbrev success : Run String ℕ
success = record failure { outcome = ok found }

abbrev poll : Poll String ℕ
poll = record {
  since_hash = none;
  force = false;
  user_id = "ann";
  now = at 9000;
  submitted = true;
  run = success;
}

abbrev unpolled : Desk String ℕ
unpolled = record {
  stores = no_stores;
  refresher = record { in_flight = []; cooldown_until = []; cooldown_wall = [] };
}

abbrev cleared : List FlagDismissal
cleared = record { query_id = "q"; user_id = "ann"; row_fingerprint = "a" } ∷ []

abbrev first_of : List String → String
first_of [] = ""
first_of (s ∷ ss) = s

poll_one-shown_example :
    let dismissed = dismissed_fingerprints "q" "ann" cleared in
    let rows = shown (poll_one program first_of query poll cleared unpolled).0 in
    uncleared dismissed rows ≡ rows
poll_one-shown_example = poll_one-shown program first_of query poll cleared unpolled

-- what the first poll leaves, for the next one
abbrev polled : Desk String ℕ
polled = (poll_one program first_of query poll cleared unpolled).1

poll_one-cached_example :
    (poll_one program first_of query (record poll { run = failure }) cleared polled
      ≡ poll_one program first_of query poll cleared polled)
    × ((poll_one program first_of query poll cleared polled).1.stores.logs ≡ polled.stores.logs)
    × ((poll_one program first_of query poll cleared polled).1.stores.findings
        ≡ polled.stores.findings)
unfolding poll_one cached_entry ResultCache.get Dict.get ResultCache.get_stale ResultCache.set admit
    evict Dict.put_last drop elapsed_ms poll_interval_for
poll_one-cached_example = poll_one-cached program first_of query poll cleared polled failure refl
