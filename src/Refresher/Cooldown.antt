-- ===== src/Refresher/Cooldown.antt =====
-- When a query may be refreshed again.
use fraud_analyzer_engine.Prelude.{
  ℕ, ◌+◌, ◌*◌, max, String, ◌≡◌, refl, ap, ◌∙◌, inl, inr, Bool, true, false, not, ◌||◌, Option,
  some, List, texts, arith, eq_refl, Bool-cases,
}
use fraud_analyzer_engine.Prelude.Outcome.{ok, raise, Outcome-cases}
use fraud_analyzer_engine.Dict
use fraud_analyzer_engine.Dict.{Dict, get-set, get-remove}
use fraud_analyzer_engine.Clock.{Clocks, is_over}
use fraud_analyzer_engine.Queries.{
  Connection, SavedQuery, RunError, Stores, Run, Program, poll_interval_for, store_run,
}
use fraud_analyzer_engine.Refresher.Defs.{
  Refresher, is_in_flight, discard, cooling_down, request_refresh, hold_off, end_cooldown,
  refresh_run, refresh_body, refresh,
}
use fraud_analyzer_engine.Refresher.Flights.{in_flight-refresh}

cooling_down-hold_off :
    (q : String) (interval_ms : ℕ) (now later : Clocks) (r : Refresher)
    → cooling_down q later (hold_off q interval_ms now r)
      ≡ not (is_over now (max interval_ms 1) later)
unfolding cooling_down hold_off is_over
cooling_down-hold_off q interval_ms now later r = ground (
  arith,
  get-set q q (now.mono + max interval_ms 1 * 1000) r.cooldown_until,
  get-set q q (now.wall + max interval_ms 1 * 1000) r.cooldown_wall,
  eq_refl q,
)

cooling_down-end_cooldown :
    (q : String) (later : Clocks) (r : Refresher) → cooling_down q later (end_cooldown q r) ≡ false
unfolding cooling_down end_cooldown
cooling_down-end_cooldown q later r = ground (arith, get-remove q q r.cooldown_until, eq_refl q)

request-idle :
    (q : String) (later : Clocks) (r : Refresher)
    → is_in_flight q r.in_flight ≡ false
    → (request_refresh q later true r).0 ≡ not (cooling_down q later r)
unfolding request_refresh
request-idle q later r h = ground arith

module _ {V C : Type 0} (program : Program V C) where
  -- The run gave a payload, and everything it leaves behind was stored.
  unfoldable pub has_succeeded : SavedQuery → Option String → Run V C → Stores V C → Bool
  has_succeeded query user_id run stores = elim run.outcome [
    | raise e ↦ false
    | ok payload ↦ (store_run program query user_id run payload stores).0
  ]

  cooling_down-refresh_run :
      (query_id : String) (query : SavedQuery) (user_id : Option String) (run : Run V C)
      (later : Clocks) (r : Refresher) (stores : Stores V C)
      → cooling_down query_id later (refresh_run program query_id query user_id run r stores).0
        ≡ not (
            has_succeeded query user_id run stores
            || is_over run.ended (max (poll_interval_for program.settings query) 1) later)
  unfolding refresh_run has_succeeded
  cooling_down-refresh_run query_id query user_id run later r stores =
      let held =
        cooling_down-hold_off query_id (poll_interval_for program.settings query) run.ended later
          r in
      elim (Outcome-cases run.outcome) [
        | inr (RunError.app_error code, e) ↦ rw (refresh_run, has_succeeded, e) held
        | inr (RunError.other_error, e) ↦ rw (refresh_run, has_succeeded, e) held
        | inl (payload, e) ↦
            elim (Bool-cases (store_run program query user_id run payload stores).0) [
              | inl b ↦
                  rw (refresh_run, has_succeeded, e, b) (cooling_down-end_cooldown query_id later r)
              | inr b ↦ rw (refresh_run, has_succeeded, e, b) held
            ]
      ]

  cooling_down-discard :
      (query_id : String) (later : Clocks) (r : Refresher) (flights : List String)
      → cooling_down query_id later (record r { in_flight = flights })
        ≡ cooling_down query_id later r
  unfolding cooling_down
  cooling_down-discard query_id later r flights = refl

  refresh_body-run :
      (queries : Dict SavedQuery) (connections : Dict Connection) (query_id : String)
      (user_id : Option String) (run : Run V C) (r : Refresher) (stores : Stores V C)
      (query : SavedQuery) (conn : Connection)
      → Dict.get query_id queries ≡ some query
      → Dict.get query.connection_id connections ≡ some conn
      → conn.paused ≡ false
      → refresh_body program queries connections query_id user_id run r stores
        ≡ refresh_run program query_id query user_id run r stores
  unfolding refresh_body
  refresh_body-run queries connections query_id user_id run r stores query conn q c p =
      rw (refresh_body, q, c, p) refl

  -- When a refresh of a query on a live connection is over, the next request for one is accepted at
  -- once if it succeeded, and if it failed just when the query's interval is over, on one of the clocks.
  pub request-refresh :
      (queries : Dict SavedQuery) (connections : Dict Connection) (query_id : String)
      (user_id : Option String) (run : Run V C) (later : Clocks) (r : Refresher)
      (stores : Stores V C) (query : SavedQuery) (conn : Connection)
      → Dict.get query_id queries ≡ some query
      → Dict.get query.connection_id connections ≡ some conn
      → conn.paused ≡ false
      → (request_refresh query_id later true
          (refresh program queries connections query_id user_id run r stores).0).0
        ≡ (has_succeeded query user_id run stores
            || is_over run.ended (max (poll_interval_for program.settings query) 1) later)
  unfolding refresh
  request-refresh queries connections query_id user_id run later r stores query conn q c p =
      let body = refresh_body program queries connections query_id user_id run r stores in
      let landed : is_in_flight query_id
            (refresh program queries connections query_id user_id run r stores).0.in_flight
          ≡ false =
        ground (
          arith,
          in_flight-refresh program queries connections query_id query_id user_id run r stores,
          eq_refl query_id,
        ) in
      request-idle query_id later _ landed
      ∙ ap not (cooling_down-discard query_id later body.0 (discard query_id body.0.in_flight))
      ∙ ap (λ (b : Refresher × Stores V C). not (cooling_down query_id later b.0))
          (refresh_body-run queries connections query_id user_id run r stores query conn q c p)
      ∙ ap not (cooling_down-refresh_run query_id query user_id run later r stores)
      ∙ ground arith
