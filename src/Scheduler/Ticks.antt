-- ===== src/Scheduler/Ticks.antt =====
-- What a tick of the scheduler leaves alone.
use fraud_analyzer_engine.Prelude.{
  ℕ, String, ◌≡◌, refl, ◌∙◌, inl, inr, Bool, true, false, Option, none, List, [], ◌∷◌, arith, ◌==◌,
  texts, any, Option-cases, Bool-cases,
}
use fraud_analyzer_engine.Prelude.Outcome.{Outcome-cases}
use fraud_analyzer_engine.Dict
use fraud_analyzer_engine.Dict.{Dict, get-set, get-remove}
use fraud_analyzer_engine.Clock.{Clocks}
use fraud_analyzer_engine.Findings.{rows_of}
use fraud_analyzer_engine.Findings.Sync.{sync-other}
use fraud_analyzer_engine.ResultCache
use fraud_analyzer_engine.Queries.{
  Settings, Connection, SavedQuery, RunPayload, Stores, Run, Program, store_run,
}
use fraud_analyzer_engine.Scheduler.Defs.{
  Schedule, Visit, is_due, set_due_in, reschedule, run_query, visit_query, run_queries,
  run_due_once, due_queries, counted,
}
use fraud_analyzer_engine.Scheduler.Backoff.{is_due-set_due_in}

is_due-set_other :
    (k q : String) (delay_ms : ℕ) (now later : Clocks) (s : Schedule)
    → (q == k) ≡ false
    → is_due k later (set_due_in q delay_ms now s) ≡ is_due k later s
is_due-set_other k q delay_ms now later s h =
    ground (arith, is_due-set_due_in k q delay_ms now later s)

is_due-other :
    (settings : Settings) (query : SavedQuery) (failed : Bool) (k : String) (now later : Clocks)
    (s : Schedule)
    → (query.id == k) ≡ false
    → is_due k later (reschedule settings query failed now s) ≡ is_due k later s
unfolding reschedule is_due set_due_in
is_due-other settings query true k now later s h = is_due-set_other k query.id _ now later s h
is_due-other settings query false k now later s h = is_due-set_other k query.id _ now later s h

module _ {V C : Type 0} (program : Program V C) where
  -- Two states agree on a query: when it is due, and what was found.
  abbrev Agrees : String → Clocks → Schedule → Stores V C → Schedule → Stores V C → Type 0
  Agrees k later s' stores' s stores =
      (is_due k later s' ≡ is_due k later s)
      × (rows_of k stores'.findings ≡ rows_of k stores.findings)

  findings-store_run :
      (query : SavedQuery) (user_id : Option String) (run : Run V C) (payload : RunPayload V C)
      (stores : Stores V C) (k : String)
      → (query.id == k) ≡ false
      → rows_of k (store_run program query user_id run payload stores).1.findings
        ≡ rows_of k stores.findings
  unfolding store_run
  findings-store_run query user_id run payload stores k h = ground (
    arith,
    sync-other program.row_fingerprint run.seen_at query.id k payload.columns payload.rows
        payload.flags stores.findings h,
  )

  run_query-Agrees :
      (query : SavedQuery) (run : Run V C) (s : Schedule) (stores : Stores V C) (k : String)
      (later : Clocks)
      → (query.id == k) ≡ false
      → (let (r, s', stores') = run_query program query run s stores in
          Agrees k later s' stores' s stores)
  unfolding run_query
  run_query-Agrees query run s stores k later h = elim (Outcome-cases run.outcome) [
    | inr (e, o) ↦
        rw (run_query, o) (is_due-other program.settings query true k run.ended later s h, refl)
    | inl (payload, o) ↦
        let found = findings-store_run query none run payload stores k h in
        elim (Bool-cases (store_run program query none run payload stores).0) [
          | inl b ↦
              rw (run_query, o, b)
                (is_due-other program.settings query false k run.ended later s h, found)
          | inr b ↦ rw (run_query, o, b) (refl, found)
        ]
  ]

  visit_query-Agrees :
      (connections : Dict Connection) (query : SavedQuery) (visit : Visit V C) (s : Schedule)
      (stores : Stores V C) (k : String) (later : Clocks)
      → (query.id == k) ≡ false
      → (let (r, s', stores') = visit_query program connections query visit s stores in
          Agrees k later s' stores' s stores)
  unfolding visit_query
  visit_query-Agrees connections query visit s stores k later h =
      elim (Option-cases (Dict.get query.connection_id connections)) [
        | inl n ↦ rw (visit_query, n) (refl, refl)
        | inr (conn, c) ↦
            elim (Option-cases (ResultCache.get visit.started query.id stores.results).0) [
              | inr (entry, e) ↦
                  rw (visit_query, c, e)
                    (is_due-set_other k query.id _ visit.started later s h, refl)
              | inl n ↦ elim (Bool-cases conn.paused) [
                | inl b ↦ rw (visit_query, c, n, b) (refl, refl)
                | inr b ↦ rw (visit_query, c, n, b) (run_query-Agrees query visit.run s _ k later h)
              ]
            ]
      ]

  run_queries-Agrees :
      (connections : Dict Connection) (visits : String → Visit V C) (queries : List SavedQuery)
      (count : ℕ) (s : Schedule) (stores : Stores V C) (k : String) (later : Clocks)
      → any (λ query. query.id == k) queries ≡ false
      → (let (r, s', stores') = run_queries program connections visits queries count s stores in
          Agrees k later s' stores' s stores)
  unfolding run_queries
  run_queries-Agrees connections visits [] count s stores k later h = (refl, refl)
  run_queries-Agrees connections visits (query ∷ queries) count s stores k later h =
      let visited =
        visit_query-Agrees connections query (visits query.id) s stores k later (ground arith) in
      let turn = (visit_query program connections query (visits query.id) s stores).0 in
      elim (Option-cases (counted turn count)) [
        | inl n ↦ rw (run_queries, n) visited
        | inr (count', c) ↦
            let (due, found) =
              run_queries-Agrees connections visits queries count' _ _ k later (ground arith) in
            rw (run_queries, c) (due ∙ visited.0, found ∙ visited.1)
      ]

  -- Whatever its runs do, a tick leaves a query that it does not find due, or that has no flag rules,
  -- due when it was, with the findings that it had.
  pub run_due_once-Agrees :
      (connections : Dict Connection) (asked : String → Clocks) (visits : String → Visit V C)
      (queries : List SavedQuery) (s : Schedule) (stores : Stores V C) (k : String) (later : Clocks)
      → any (λ query. query.id == k) (due_queries asked s queries) ≡ false
      → (let (r, s', stores') = run_due_once program connections asked visits queries s stores in
          Agrees k later s' stores' s stores)
  unfolding run_due_once
  run_due_once-Agrees connections asked visits queries s stores k later h =
      run_queries-Agrees connections visits (due_queries asked s queries) 0 s stores k later h
