-- ===== src/RateLimit/Requests.antt =====
-- What the middleware of ratelimit.py does with a request.
use fraud_analyzer_engine.Prelude.{
  ℕ, ◌+◌, String, ◌≡◌, ◌||◌, arith, leb, ◌==◌, numbers, if◌then◌else◌,
}
use fraud_analyzer_engine.Prelude.Text.{PyText}
use fraud_analyzer_engine.RateLimit.Defs.{
  Request, Windows, pass, too_many, window_of, reset_in, count_in, hit, is_execution, client_key,
  dispatch,
}

-- A request is charged to the bucket that its path and method name, and to no other. It passes exactly
-- if that bucket is disabled by a limit of 0 or the request is within the limit of its client in this
-- window; otherwise it is refused with the seconds until the window resets.
pub dispatch_lem :
    (py : PyText) (digest : String → String) (per_minute execution_per_minute : ℕ) (r : Request)
    (now : ℕ) (ws : Windows)
    → ((dispatch py digest per_minute execution_per_minute r now ws).0 ≡ (
        let execution = is_execution r.path r.method in
        let limit = if execution then execution_per_minute else per_minute in
        let counts = if execution then ws.execution else ws.general in
        if limit == 0 || leb (count_in (window_of now) (client_key py digest r) counts + 1) limit
        then pass
        else too_many (reset_in now)))
      × ((if is_execution r.path r.method
            then (dispatch py digest per_minute execution_per_minute r now ws).1.general
            else (dispatch py digest per_minute execution_per_minute r now ws).1.execution)
          ≡ (if is_execution r.path r.method then ws.general else ws.execution))
unfolding dispatch hit
dispatch_lem py digest per_minute execution_per_minute r now ws = ground arith
