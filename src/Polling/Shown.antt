-- ===== src/Polling/Shown.antt =====
-- What a poll shows its reader, and when it runs the query.
use fraud_analyzer_engine.Prelude.{
  String, ◌≡◌, refl, sym, ap, ◌∙◌, Bool, true, false, Option, some, List, [], is_some, arith,
  Option-cases, Bool-cases, inl, inr, ℕ,
}
use fraud_analyzer_engine.Prelude.Outcome.{Outcome, ok, raise, Outcome-cases}
use fraud_analyzer_engine.Findings.{
  Flagged, FlagDismissal, Payload, dismissed_fingerprints, apply_dismissals, uncleared,
}
use fraud_analyzer_engine.Findings.Served.{rows_in, apply_dismissals_lem, uncleared-twice}
use fraud_analyzer_engine.ResultCache
use fraud_analyzer_engine.ResultCache.{CacheEntry}
use fraud_analyzer_engine.Queries.{
  SavedQuery, RunBody, RunError, Run, Program, poll_interval_for, as_dict,
}
use fraud_analyzer_engine.Polling.Defs.{
  Answer, Desk, Poll, view, is_known, answer, execute_and_log, cached_entry, poll_run, poll_one,
}

-- the flagged rows that an answer shows
abbrev pub shown : {V C : Type 0} → Outcome RunError (Answer V C) → List Flagged
shown (raise e) = []
shown (ok (Answer.unchanged data_hash interval from_cache)) = []
shown (ok (Answer.changed body from_cache)) = rows_in body.flags

module _ {V C : Type 0} (program : Program V C) (stamp : List String → String) where
  -- None of the rows is dismissed.
  abbrev IsCleared : List String → Outcome RunError (Answer V C) → Type 0
  IsCleared dismissed o = uncleared dismissed (shown o) ≡ shown o

  answer-IsCleared :
      (since : Option String) (interval : ℕ) (from_cache : Bool) (dismissed : List String)
      (p : Payload (RunBody V C))
      → IsCleared dismissed
          (ok (answer since interval from_cache (apply_dismissals stamp dismissed p)))
  unfolding answer uncleared
  answer-IsCleared since interval from_cache dismissed p =
      let served = apply_dismissals stamp dismissed p in
      let rows = (apply_dismissals_lem stamp dismissed p).0.0 in
      elim (Bool-cases (is_known since served.data_hash)) [
        | inl h ↦ rw (answer, h) refl
        | inr h ↦ rw (answer, h) (rw rows (uncleared-twice dismissed (rows_in p.flags)))
      ]

  poll_run-IsCleared :
      (query : SavedQuery) (poll : Poll V C) (dismissed : List String) (desk : Desk V C)
      → IsCleared dismissed (poll_run program stamp query poll dismissed desk).0
  unfolding poll_run uncleared
  poll_run-IsCleared query poll dismissed desk =
      let executed = execute_and_log program query poll.user_id poll.run desk.stores in
      elim (Outcome-cases executed.0) [
        | inr (e, h) ↦ rw (poll_run, h) refl
        | inl (payload, h) ↦
            let interval = poll_interval_for program.settings query in
            let body = as_dict payload interval in
            elim (Option-cases (
              ResultCache.set program.ops program.settings.cache_max_bytes poll.run.ended query.id
                payload.data_hash body interval executed.1.results)) [
                  | inl n ↦ rw (poll_run, h, n) refl
                  | inr (stored, s) ↦
                      rw (poll_run, h, s)
                        (answer-IsCleared poll.since_hash interval false dismissed (view body))
                ]
      ]

  -- Whether a poll is answered from the cache or by a run, no flagged row that it shows is one that its
  -- reader has dismissed.
  pub poll_one-shown :
      (query : SavedQuery) (poll : Poll V C) (dismissals : List FlagDismissal) (desk : Desk V C)
      → (let dismissed = dismissed_fingerprints query.id poll.user_id dismissals in
          let rows = shown (poll_one program stamp query poll dismissals desk).0 in
          uncleared dismissed rows ≡ rows)
  unfolding poll_one
  poll_one-shown query poll dismissals desk =
      let dismissed = dismissed_fingerprints query.id poll.user_id dismissals in
      elim (Option-cases (cached_entry program query poll desk).0) [
        | inl n ↦
            rw (poll_one, n)
              (poll_run-IsCleared query poll dismissed (cached_entry program query poll desk).1)
        | inr (entry, e) ↦
            rw (poll_one, e)
              (answer-IsCleared poll.since_hash (poll_interval_for program.settings query) true
                dismissed (view entry.payload))
      ]

  cached_entry-run :
      (query : SavedQuery) (poll : Poll V C) (desk : Desk V C) (other : Run V C)
      → cached_entry program query (record poll { run = other }) desk
        ≡ cached_entry program query poll desk
  unfolding cached_entry
  cached_entry-run query poll desk other = refl

  -- It changes the cache and the refresher only.
  cached_entry-stores :
      (query : SavedQuery) (poll : Poll V C) (desk : Desk V C)
      → (let stores = (cached_entry program query poll desk).1.stores in
          (stores.logs ≡ desk.stores.logs) × (stores.findings ≡ desk.stores.findings))
  unfolding cached_entry
  cached_entry-stores query poll desk =
      let fresh = ResultCache.get poll.now query.id desk.stores.results in
      elim (Bool-cases poll.force) [
        | inl f ↦ rw (cached_entry, f) (refl, refl)
        | inr f ↦ elim (Option-cases fresh.0) [
          | inr (entry, e) ↦ rw (cached_entry, f, e) (refl, refl)
          | inl n ↦
              elim (Option-cases
                (ResultCache.get_stale program.settings.cache_stale_grace_ms poll.now query.id
                  fresh.1).0) [
                    | inl m ↦ rw (cached_entry, f, n, m) (refl, refl)
                    | inr (entry, e) ↦ rw (cached_entry, f, n, e) (refl, refl)
                  ]
        ]
      ]

  poll_one-some :
      (query : SavedQuery) (poll : Poll V C) (dismissals : List FlagDismissal) (desk : Desk V C)
      (entry : CacheEntry (RunBody V C))
      → (cached_entry program query poll desk).0 ≡ some entry
      → poll_one program stamp query poll dismissals desk ≡ (
        ok (
            answer poll.since_hash (poll_interval_for program.settings query) true (
              apply_dismissals stamp
                (dismissed_fingerprints query.id poll.user_id dismissals)
                (view entry.payload))),
        (cached_entry program query poll desk).1,
      )
  unfolding poll_one
  poll_one-some query poll dismissals desk entry e = rw (poll_one, e) refl

  -- A poll that the cache answers, with a fresh result or a stale one, waits for no run: its answer and all
  -- that it leaves behind are the same whatever a run would give; it adds nothing to the log or findings.
  pub poll_one-cached :
      (query : SavedQuery) (poll : Poll V C) (dismissals : List FlagDismissal) (desk : Desk V C)
      (other : Run V C)
      → is_some (cached_entry program query poll desk).0 ≡ true
      → (poll_one program stamp query (record poll { run = other }) dismissals desk
          ≡ poll_one program stamp query poll dismissals desk)
        × ((poll_one program stamp query poll dismissals desk).1.stores.logs ≡ desk.stores.logs)
        × ((poll_one program stamp query poll dismissals desk).1.stores.findings
            ≡ desk.stores.findings)
  unfolding cached_entry
  poll_one-cached query poll dismissals desk other h =
      elim (Option-cases (cached_entry program query poll desk).0) [
        | inl n ↦ absurd (ground arith)
        | inr (entry, e) ↦
            let answered = poll_one-some query poll dismissals desk entry e in
            let (logs, findings) = cached_entry-stores query poll desk in
            (
              poll_one-some query (record poll { run = other }) dismissals desk entry e
                  ∙ sym answered,
              ap (λ (r : Outcome RunError (Answer V C) × Desk V C). r.1.stores.logs) answered
                  ∙ logs,
              ap (λ (r : Outcome RunError (Answer V C) × Desk V C). r.1.stores.findings) answered
                  ∙ findings,
            )
      ]
