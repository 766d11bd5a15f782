-- ===== src/Tests/RateLimit.antt =====
-- services/analyzer/app/ratelimit.py on a few requests.
use fraud_analyzer_engine.Prelude.{
  ℕ, ◌+◌, ◌≤◌, min, String, ◌≡◌, refl, true, false, none, some, List, [], ◌∷◌, if◌then◌else◌, ◌==◌,
  texts,
}
use fraud_analyzer_engine.Prelude.Text.{PyText, contains, ends_with, before}
use fraud_analyzer_engine.Dict
use fraud_analyzer_engine.RateLimit.{
  Window, Windows, Request, Verdict, window_of, reset_in, seconds, hit, count_in, is_execution,
  client_key, dispatch,
}
use fraud_analyzer_engine.RateLimit.Counting.{
  count_in-hit, reset_in_lem, run, run-budget, allowed_of,
}
use fraud_analyzer_engine.RateLimit.Requests.{dispatch_lem}

abbrev used : Window
used = ("a", (0, 1)) ∷ []

abbrev requests : List (String × ℕ)
requests = ("a", 5) ∷ ("b", 6) ∷ ("a", 7) ∷ []

-- of two requests of "a", who has one left of two, the first passes
answers : (run 2 requests used).0 ≡ true ∷ true ∷ false ∷ []
unfolding run hit count_in Dict.get Dict.set
answers = refl

run_paths : is_execution "/api/v1/queries/7/run" "GET" ≡ true
unfolding is_execution contains
run_paths = refl

saving_rules : is_execution "/queries/7/flag-rules" "PUT" ≡ false
unfolding is_execution contains ends_with
saving_rules = refl

count_in-hit_example : count_in (window_of 5) "b" (hit "a" 2 5 used).1 ≡ (
    if ◌==◌ {K = String} "a" "b"
    then count_in (window_of 5) "a" used + 1
    else count_in (window_of 5) "b" used)
unfolding Dict.get
count_in-hit_example = count_in-hit "a" "b" 2 5 used (refl, tt)

reset_in_lem_example :
    (1 ≤ reset_in (seconds 61))
    × (reset_in (seconds 61) ≤ 60)
    × (window_of (seconds 61 + seconds (reset_in (seconds 61))) ≡ window_of (seconds 61) + 1)
reset_in_lem_example = reset_in_lem (seconds 61)

run-budget_example :
    min 2 (count_in 0 "a" used) + allowed_of "a" requests (run 2 requests used).0
    ≡ min 2 (count_in 0 "a" used + 2)
unfolding Dict.get
run-budget_example = run-budget "a" 2 0 requests used refl (refl, tt)

abbrev same : PyText
same = record { strip = λ s. s; lower = λ s. s; casefold = λ s. s; upper = λ s. s }

abbrev asking : Request
asking = record {
  path = "/charts";
  method = "GET";
  authorization = none;
  x_forwarded_for = none;
  client_host = some "10.0.0.1";
}

abbrev windows : Windows
windows = record { general = ("ip:10.0.0.1", (0, 2)) ∷ []; execution = [] }

dispatch_lem_example :
    ((dispatch same (λ s. s) 2 1 asking 5 windows).0 ≡ Verdict.too_many 60)
    × ((dispatch same (λ s. s) 2 1 asking 5 windows).1.execution ≡ [])
unfolding is_execution contains ends_with client_key before count_in Dict.get
dispatch_lem_example = dispatch_lem same (λ s. s) 2 1 asking 5 windows
