-- ===== src/Scheduler/Backoff.antt =====
-- When a query is due again.
use fraud_analyzer_engine.Prelude.{
  ℕ, zero, suc, ◌+◌, ◌*◌, ◌^◌, ◌≤◌, min, max, String, ◌≡◌, sym, ap, ◌∙◌, Bool, true, false, none,
  List, [], ◌∷◌, if◌then◌else◌, arith, ◌==◌, texts, eq_refl, length,
}
use native.Mathlib.Numerals.{unary_clauses}
use fraud_analyzer_engine.Dict
use fraud_analyzer_engine.Dict.{Dict, get-set, get-remove}
use fraud_analyzer_engine.Clock.{Clocks, is_over}
use fraud_analyzer_engine.Queries.{Settings, SavedQuery}
use fraud_analyzer_engine.Scheduler.Defs.{
  Schedule, or_number, is_due, set_due_in, interval_for, next_factor, reschedule,
}

pub is_due-set_due_in :
    (k q : String) (delay_ms : ℕ) (now later : Clocks) (s : Schedule)
    → is_due k later (set_due_in q delay_ms now s)
      ≡ (if q == k then is_over now delay_ms later else is_due k later s)
unfolding is_due set_due_in is_over
is_due-set_due_in k q delay_ms now later s = ground (
  arith,
  get-set q k (now.mono + delay_ms * 1000) s.next_due,
  get-set q k (now.wall + delay_ms * 1000) s.next_due_wall,
)

-- The failures of a query, the latest first.
unfoldable pub failed_runs : Settings → SavedQuery → List Clocks → Schedule → Schedule
failed_runs settings query [] s = s
failed_runs settings query (now ∷ nows) s =
    reschedule settings query true now (failed_runs settings query nows s)

doubled : (p : ℕ) → 1 ≤ p → next_factor (min p 65536) ≡ min (p * 2) 65536
unfolding next_factor
doubled p h = omega arith

positive_power : (k : ℕ) → 1 ≤ 2 ^ k
positive_power zero = omega arith
positive_power (suc k) = simp unary_clauses (omega (arith, positive_power k))

next_factor-power : (k : ℕ) → next_factor (min (2 ^ k) 65536) ≡ min (2 ^ suc k) 65536
next_factor-power k = doubled (2 ^ k) (positive_power k) ∙ simp unary_clauses (omega arith)

-- the factor in force
abbrev factor_of : String → Schedule → ℕ
factor_of query_id s = or_number 1 (Dict.get query_id s.backoff)

factor_of-reschedule :
    (settings : Settings) (query : SavedQuery) (now : Clocks) (s : Schedule)
    → factor_of query.id (reschedule settings query true now s) ≡ next_factor (factor_of query.id s)
unfolding reschedule set_due_in
factor_of-reschedule settings query now s = ground (
  arith,
  get-set query.id query.id (next_factor (factor_of query.id s)) s.backoff,
  eq_refl query.id,
)

factor_of-failed_runs :
    (settings : Settings) (query : SavedQuery) (s : Schedule) (nows : List Clocks)
    → Dict.get query.id s.backoff ≡ none
    → factor_of query.id (failed_runs settings query nows s) ≡ min (2 ^ length nows) 65536
unfolding failed_runs
factor_of-failed_runs settings query s [] h = ground arith
factor_of-failed_runs settings query s (now ∷ nows) h =
    factor_of-reschedule settings query now (failed_runs settings query nows s)
    ∙ ap next_factor (factor_of-failed_runs settings query s nows h)
    ∙ next_factor-power (length nows)

is_due-same :
    (q : String) (delay_ms : ℕ) (now later : Clocks) (s : Schedule)
    → is_due q later (set_due_in q delay_ms now s) ≡ is_over now delay_ms later
is_due-same q delay_ms now later s =
    ground (arith, is_due-set_due_in q q delay_ms now later s, eq_refl q)

is_due-failed :
    (settings : Settings) (query : SavedQuery) (now later : Clocks) (s : Schedule)
    → is_due query.id later (reschedule settings query true now s)
      ≡ is_over now
          (min
            (interval_for settings query * next_factor (factor_of query.id s))
            settings.scheduler_max_backoff_ms)
          later
unfolding reschedule
is_due-failed settings query now later s = is_due-same query.id _ now later _

is_due-succeeded :
    (settings : Settings) (query : SavedQuery) (now later : Clocks) (s : Schedule)
    → is_due query.id later (reschedule settings query false now s)
      ≡ is_over now (interval_for settings query) later
unfolding reschedule
is_due-succeeded settings query now later s = is_due-same query.id _ now later _

-- After some failures in a row, from no backoff, a query is due when the interval, doubled for each of
-- them up to 65536 times and at most the longest backoff, is over since the last one.
pub failed_runs-is_due :
    (settings : Settings) (query : SavedQuery) (s : Schedule) (now later : Clocks)
    (nows : List Clocks)
    → Dict.get query.id s.backoff ≡ none
    → is_due query.id later (failed_runs settings query (now ∷ nows) s)
      ≡ is_over now
          (min
            (interval_for settings query * min (2 ^ suc (length nows)) 65536)
            settings.scheduler_max_backoff_ms)
          later
unfolding failed_runs
failed_runs-is_due settings query s now later nows h =
    is_due-failed settings query now later (failed_runs settings query nows s)
    ∙ ap
        (λ factor.
          is_over now (min (interval_for settings query * factor) settings.scheduler_max_backoff_ms)
            later)
        (ap next_factor (factor_of-failed_runs settings query s nows h)
          ∙ next_factor-power (length nows))

is_over-sooner :
    (now later : Clocks) (short long : ℕ)
    → short ≤ long
    → is_over now long later ≡ true
    → is_over now short later ≡ true
unfolding is_over
is_over-sooner now later short long h o = ground arith

next_factor-positive : (n : ℕ) → 2 ≤ next_factor n
unfolding next_factor
next_factor-positive n = omega arith

multiple_le : (a b : ℕ) → 2 ≤ b → a ≤ a * b
multiple_le a b h = grind arith

-- However a run ended, the query is due again when the longer of its interval and the longest backoff is
-- over.
pub reschedule-due_again :
    (settings : Settings) (query : SavedQuery) (failed : Bool) (now later : Clocks) (s : Schedule)
    → is_over now (max (interval_for settings query) settings.scheduler_max_backoff_ms) later ≡ true
    → is_due query.id later (reschedule settings query failed now s) ≡ true
reschedule-due_again settings query false now later s o =
    rw (is_due-succeeded settings query now later s) (is_over-sooner now later _ _ (omega arith) o)
reschedule-due_again settings query true now later s o =
    rw (is_due-failed settings query now later s) (is_over-sooner now later _ _ (omega arith) o)

-- However a run ended, the query is not due while the floor under all intervals is not over, if the
-- longest backoff is no shorter than that floor.
pub reschedule-not_before :
    (settings : Settings) (query : SavedQuery) (failed : Bool) (now later : Clocks) (s : Schedule)
    → settings.scheduler_min_interval_ms ≤ settings.scheduler_max_backoff_ms
    → is_due query.id later (reschedule settings query failed now s) ≡ true
    → is_over now settings.scheduler_min_interval_ms later ≡ true
unfolding interval_for
reschedule-not_before settings query false now later s m o =
    is_over-sooner now later _ (interval_for settings query) (omega arith)
      (sym (is_due-succeeded settings query now later s) ∙ o)
reschedule-not_before settings query true now later s m o =
    let factor = next_factor (factor_of query.id s) in
    is_over-sooner now later _
      (min (interval_for settings query * factor) settings.scheduler_max_backoff_ms)
      (omega (
        arith,
        multiple_le (interval_for settings query) factor
            (next_factor-positive (factor_of query.id s)),
      ))
      (sym (is_due-failed settings query now later s) ∙ o)
