-- ===== src/Scheduler/Defs.antt =====
-- The schedule and one tick of it. A moment is in microseconds where the source has a float of
-- milliseconds; the outcome of a run on its target is an argument.
use fraud_analyzer_engine.Prelude.{
  ℕ, ◌+◌, ◌-◌, ◌*◌, min, max, String, Bool, true, false, ◌&&◌, ◌||◌, Option, none, some, List, [],
  ◌∷◌, leb, if◌then◌else◌,
}
use fraud_analyzer_engine.Dict
use fraud_analyzer_engine.Dict.{Dict}
use fraud_analyzer_engine.Prelude.Outcome.{ok, raise}
use fraud_analyzer_engine.Clock.{Clocks}
use fraud_analyzer_engine.ResultCache
use fraud_analyzer_engine.ResultCache.{CacheEntry, age_ms}
use fraud_analyzer_engine.FlagRules.{RuleSpec}
use fraud_analyzer_engine.Queries.{
  Settings, Connection, SavedQuery, Stores, Run, Program, poll_interval_for, store_run,
}

-- `_next_due`, `_next_due_wall` and `_backoff`
pub record Schedule : Type 0 where
  pub next_due : Dict ℕ
  pub next_due_wall : Dict ℕ
  pub backoff : Dict ℕ

unfoldable pub reset : Schedule
reset = record { next_due = []; next_due_wall = []; backoff = [] }

abbrev pub or_number : ℕ → Option ℕ → ℕ
or_number default none = default
or_number default (some n) = n

-- `moment is not None and moment <= now`
abbrev pub has_passed : ℕ → Option ℕ → Bool
has_passed now none = false
has_passed now (some moment) = leb moment now

unfoldable pub is_due : String → Clocks → Schedule → Bool
is_due query_id now s =
    leb (or_number 0 (Dict.get query_id s.next_due)) now.mono
    || has_passed now.wall (Dict.get query_id s.next_due_wall)

unfoldable pub set_due_in : String → ℕ → Clocks → Schedule → Schedule
set_due_in query_id delay_ms now s = record s {
  next_due = Dict.set query_id (now.mono + delay_ms * 1000) s.next_due;
  next_due_wall = Dict.set query_id (now.wall + delay_ms * 1000) s.next_due_wall;
}

abbrev pub has_rules : List RuleSpec → Bool
has_rules [] = false
has_rules (rule ∷ rules) = true

-- `asked` has the reading of the clocks for each query.
unfoldable pub due_queries : (String → Clocks) → Schedule → List SavedQuery → List SavedQuery
unfolding is_due
due_queries asked s [] = []
due_queries asked s (query ∷ queries) =
    let rest = due_queries asked s queries in
    if has_rules query.flag_rules && is_due query.id (asked query.id) s then query ∷ rest else rest

unfoldable pub interval_for : Settings → SavedQuery → ℕ
interval_for settings query =
    max (poll_interval_for settings query) settings.scheduler_min_interval_ms

-- `min(max(previous * 2, 2), 1 << 16)`
unfoldable pub next_factor : ℕ → ℕ
next_factor previous = min (max (previous * 2) 2) 65536

unfoldable pub reschedule : Settings → SavedQuery → Bool → Clocks → Schedule → Schedule
unfolding interval_for next_factor set_due_in
reschedule settings query true now s =
    let factor = next_factor (or_number 1 (Dict.get query.id s.backoff)) in
    set_due_in query.id
      (min (interval_for settings query * factor) settings.scheduler_max_backoff_ms) now
      (record s { backoff = Dict.set query.id factor s.backoff })
reschedule settings query false now s =
    set_due_in query.id (interval_for settings query) now
      (record s { backoff = Dict.remove query.id s.backoff })

-- What a query's turn came to: it was skipped, its run failed or succeeded, or an exception left the
-- loop.
pub data Turn : Type 0 where
  skipped : Turn
  failed : Turn
  ran : Turn
  aborted : Turn

-- the count of the queries that ran, `none` where an exception left the loop
unfoldable pub counted : Turn → ℕ → Option ℕ
counted Turn.skipped count = some count
counted Turn.failed count = some count
counted Turn.ran count = some (count + 1)
counted Turn.aborted count = none

-- A turn's circumstances: the clocks when it starts, and the run, if it comes to one.
pub record Visit (V C : Type 0) : Type 0 where
  pub started : Clocks
  pub run : Run V C

module _ {V C : Type 0} (program : Program V C) where
  unfoldable pub run_query :
      SavedQuery → Run V C → Schedule → Stores V C → Turn × Schedule × Stores V C
  unfolding reschedule
  run_query query run s stores = elim run.outcome [
    | raise e ↦ (Turn.failed, reschedule program.settings query true run.ended s, stores)
    | ok payload ↦
        let (stored, stores') = store_run program query none run payload stores in
        if stored
        then (Turn.ran, reschedule program.settings query false run.ended s, stores')
        else (Turn.aborted, s, stores')
  ]

  -- one round of the loop
  unfoldable pub visit_query :
      Dict Connection
      → SavedQuery
      → Visit V C
      → Schedule
      → Stores V C
      → Turn × Schedule × Stores V C
  unfolding run_query set_due_in
  visit_query connections query visit s stores = elim (Dict.get query.connection_id connections) [
    | none ↦ (Turn.skipped, s, stores)
    | some conn ↦
        let (fresh, results) = ResultCache.get visit.started query.id stores.results in
        elim fresh [
          | some entry ↦ (
            Turn.skipped,
            set_due_in query.id (entry.ttl_ms - age_ms entry visit.started) visit.started s,
            record stores { results = results },
          )
          | none ↦
              if conn.paused
              then (Turn.skipped, s, record stores { results = results })
              else run_query query visit.run s (record stores { results = results })
        ]
  ]

  unfoldable pub run_queries :
      Dict Connection
      → (String → Visit V C)
      → List SavedQuery
      → ℕ
      → Schedule
      → Stores V C
      → Option ℕ × Schedule × Stores V C
  unfolding visit_query counted
  run_queries connections visits [] count s stores = (some count, s, stores)
  run_queries connections visits (query ∷ queries) count s stores =
      let (turn, s', stores') = visit_query connections query (visits query.id) s stores in
      elim (counted turn count) [
        | none ↦ (none, s', stores')
        | some count' ↦ run_queries connections visits queries count' s' stores'
      ]

  unfoldable pub run_due_once :
      Dict Connection
      → (String → Clocks)
      → (String → Visit V C)
      → List SavedQuery
      → Schedule
      → Stores V C
      → Option ℕ × Schedule × Stores V C
  unfolding due_queries run_queries
  run_due_once connections asked visits queries s stores =
      run_queries connections visits (due_queries asked s queries) 0 s stores
