-- ===== src/Refresher/Defs.antt =====
-- Requests for a refresh, the refresh itself, and the cooldown after one that failed. A moment is in
-- microseconds where the source has a float of seconds. What the thread pool answers and what a run
-- gives are arguments.
use fraud_analyzer_engine.Prelude.{
  ℕ, ◌+◌, ◌*◌, max, String, Bool, true, false, Option, none, some, List, [], ◌∷◌, leb, ltb, ◌==◌,
  texts, if◌then◌else◌, any,
}
use fraud_analyzer_engine.Prelude.Outcome.{ok, raise}
use fraud_analyzer_engine.Dict
use fraud_analyzer_engine.Dict.{Dict}
use fraud_analyzer_engine.Clock.{Clocks}
use fraud_analyzer_engine.Queries.{
  Connection, SavedQuery, RunError, QueryExecutionLog, Stores, Run, Program, poll_interval_for,
  log_execution, store_run,
}

-- `_in_flight`, `_cooldown_until` and `_cooldown_wall`
pub record Refresher : Type 0 where
  pub in_flight : List String
  pub cooldown_until : Dict ℕ
  pub cooldown_wall : Dict ℕ

-- `query_id in _in_flight`
unfoldable pub is_in_flight : String → List String → Bool
is_in_flight query_id flights = any (λ q. q == query_id) flights

unfoldable pub add : String → List String → List String
unfolding is_in_flight
add query_id flights = if is_in_flight query_id flights then flights else query_id ∷ flights

unfoldable pub discard : String → List String → List String
discard query_id [] = []
discard query_id (q ∷ flights) =
    let rest = discard query_id flights in if q == query_id then rest else q ∷ rest

unfoldable pub cooling_down : String → Clocks → Refresher → Bool
cooling_down query_id now r = elim (Dict.get query_id r.cooldown_until) [
  | none ↦ false
  | some until ↦ if leb until now.mono then false else elim (Dict.get query_id r.cooldown_wall) [
    | none ↦ true
    | some wall_until ↦ ltb now.wall wall_until
  ]
]

-- `submitted` is false where the pool raises.
unfoldable pub request_refresh : String → Clocks → Bool → Refresher → Bool × Refresher
unfolding is_in_flight add discard cooling_down
request_refresh query_id now submitted r =
    if is_in_flight query_id r.in_flight
    then (false, r)
    else if cooling_down query_id now r
    then (false, r)
    else if submitted
    then (true, record r { in_flight = add query_id r.in_flight })
    else (false, record r { in_flight = discard query_id (add query_id r.in_flight) })

unfoldable pub hold_off : String → ℕ → Clocks → Refresher → Refresher
hold_off query_id interval_ms now r = record r {
  cooldown_until = Dict.set query_id (now.mono + max interval_ms 1 * 1000) r.cooldown_until;
  cooldown_wall = Dict.set query_id (now.wall + max interval_ms 1 * 1000) r.cooldown_wall;
}

-- the end of a refresh that raised nothing
unfoldable pub end_cooldown : String → Refresher → Refresher
end_cooldown query_id r = record r {
  cooldown_until = Dict.remove query_id r.cooldown_until;
  cooldown_wall = Dict.remove query_id r.cooldown_wall;
}

unfoldable pub log_of_failure : String → Option String → String → QueryExecutionLog
log_of_failure query_id user_id code = record {
  query_id = query_id;
  success = false;
  row_count = none;
  duration_ms = none;
  error_code = some code;
  user_id = user_id;
}

module _ {V C : Type 0} (program : Program V C) where
  -- the run of a query whose connection is not paused
  unfoldable pub refresh_run :
      String
      → SavedQuery
      → Option String
      → Run V C
      → Refresher
      → Stores V C
      → Refresher × Stores V C
  unfolding hold_off end_cooldown log_of_failure
  refresh_run query_id query user_id run r stores =
      let interval = poll_interval_for program.settings query in
      elim run.outcome [
        | raise (RunError.app_error code) ↦ (
          hold_off query_id interval run.ended r,
          record stores {
            logs = log_execution run.committed (log_of_failure query_id user_id code) stores.logs;
          },
        )
        | raise RunError.other_error ↦ (hold_off query_id interval run.ended r, stores)
        | ok payload ↦
            let (stored, stores') = store_run program query user_id run payload stores in
            if stored
            then (end_cooldown query_id r, stores')
            else (hold_off query_id interval run.ended r, stores')
      ]

  -- the body of the `try`
  unfoldable pub refresh_body :
      Dict SavedQuery
      → Dict Connection
      → String
      → Option String
      → Run V C
      → Refresher
      → Stores V C
      → Refresher × Stores V C
  unfolding refresh_run
  refresh_body queries connections query_id user_id run r stores =
      elim (Dict.get query_id queries) [
        | none ↦ (r, stores)
        | some query ↦ elim (Dict.get query.connection_id connections) [
          | none ↦ (r, stores)
          | some conn ↦
              if conn.paused then (r, stores) else refresh_run query_id query user_id run r stores
        ]
      ]

  unfoldable pub refresh :
      Dict SavedQuery
      → Dict Connection
      → String
      → Option String
      → Run V C
      → Refresher
      → Stores V C
      → Refresher × Stores V C
  unfolding refresh_body discard
  refresh queries connections query_id user_id run r stores =
      let (r', stores') = refresh_body queries connections query_id user_id run r stores in
      (record r' { in_flight = discard query_id r'.in_flight }, stores')

unfoldable pub reset : Refresher → Refresher
reset r = record r { cooldown_until = []; cooldown_wall = [] }

unfoldable pub shutdown : Refresher → Refresher
shutdown r = record { in_flight = []; cooldown_until = []; cooldown_wall = [] }
