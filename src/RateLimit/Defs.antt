-- ===== src/RateLimit/Defs.antt =====
-- The fixed windows, the classification of a request, and the middleware. A reading of the clock is
-- a whole number of microseconds; `sha256(...).hexdigest()[:32]` is a parameter. A limit that is
-- negative acts as 0.
use Prim.Native.String.{◌++◌ as ◌+++◌}
use fraud_analyzer_engine.Prelude.{
  ℕ, ◌+◌, ◌-◌, ◌*◌, ◌/◌, ◌%◌, String, Bool, true, false, not, ◌&&◌, ◌||◌, Option, none, some, [],
  ◌∷◌, ltb, leb, ◌==◌, texts, numbers, if◌then◌else◌, length,
}
use fraud_analyzer_engine.Prelude.Text.{PyText, contains, ends_with, before, after}
use fraud_analyzer_engine.Dict
use fraud_analyzer_engine.Dict.{Dict}

abbrev window_seconds : ℕ
window_seconds = 60

abbrev pub seconds : ℕ → ℕ
seconds n = n * 1000000

-- `_counts`: the window in which a client was last seen, and its requests there
abbrev pub Window : Type 0
Window = Dict (ℕ × ℕ)

-- `int(now // WINDOW_SECONDS)`
abbrev pub window_of : ℕ → ℕ
window_of now = now / seconds window_seconds

-- `WINDOW_SECONDS - int(now % WINDOW_SECONDS)`
abbrev pub reset_in : ℕ → ℕ
reset_in now = window_seconds - now % seconds window_seconds / seconds 1

-- the entries of the current window
unfoldable pub purge : ℕ → Window → Window
purge window [] = []
purge window ((k, v) ∷ d) = if v.0 == window then (k, v) ∷ purge window d else purge window d

-- the count of a client in the current window, before this request
unfoldable pub count_in : ℕ → String → Window → ℕ
count_in window key counts = elim (Dict.get key counts) [
  | none ↦ 0
  | some v ↦ if v.0 == window then v.1 else 0
]

unfoldable pub hit : String → ℕ → ℕ → Window → (Bool × ℕ) × Window
unfolding purge count_in
hit key limit now counts =
    let window = window_of now in
    let count = count_in window key counts + 1 in
    let counts' = Dict.set key (window, count) counts in
    (
      (leb count limit, reset_in now),
      if ltb 10000 (length counts') then purge window counts' else counts',
    )

unfoldable pub is_execution : String → String → Bool
unfolding contains ends_with
is_execution path method =
    if contains path "/run" || contains path "/poll" || ends_with path "/query/preview"
    then true
    else if ends_with path "/test"
    then true
    else if ends_with path "/flagged/refresh"
    then true
    else if contains path "/queries" && (method == "POST" || method == "PUT")
    then not (ends_with path "/flag-rules" || ends_with path "/flag-dismissals")
    else false

-- What the middleware reads of a request: the path, the method, two headers and the peer.
pub record Request : Type 0 where
  pub path : String
  pub method : String
  pub authorization : Option String
  pub x_forwarded_for : Option String
  pub client_host : Option String

or_default : String → Option String → String
or_default d none = d
or_default d (some s) = s

address_key : PyText → Request → String
address_key py request =
    let forwarded = or_default "" request.x_forwarded_for in
    if forwarded == ""
    then "ip:" +++ or_default "unknown" request.client_host
    else "ip:" +++ py.strip (before b',' forwarded)

unfoldable pub client_key : PyText → (String → String) → Request → String
unfolding or_default address_key before after
client_key py digest request =
    let header = or_default "" request.authorization in
    let credential = py.strip (after b' ' header) in
    if py.lower (before b' ' header) == "bearer" && not (credential == "")
    then "session:" +++ digest credential
    else address_key py request

-- `_general` and `_execution`
pub record Windows : Type 0 where
  pub general : Window
  pub execution : Window

-- the request is passed on, or refused with the seconds after which to retry
pub data Verdict : Type 0 where
  pass : Verdict
  too_many : ℕ → Verdict

verdict : Bool × ℕ → Verdict
verdict (true, reset) = pass
verdict (false, reset) = too_many reset

-- one bucket; a limit of 0 disables it
spend : ℕ → String → ℕ → Window → Verdict × Window
spend limit key now counts =
    if limit == 0
    then (pass, counts)
    else (let (answer, counts') = hit key limit now counts in (verdict answer, counts'))

unfoldable pub dispatch :
    PyText → (String → String) → ℕ → ℕ → Request → ℕ → Windows → Verdict × Windows
unfolding verdict spend
dispatch py digest per_minute execution_per_minute request now ws =
    if is_execution request.path request.method
    then (let (v, w) = spend execution_per_minute (client_key py digest request) now ws.execution in
        (v, record ws { execution = w }))
    else (let (v, w) = spend per_minute (client_key py digest request) now ws.general in
        (v, record ws { general = w }))
