-- ===== src/Clock.antt =====
-- Elapsed time on two clocks, services/analyzer/app/clock.py. A clock's reading is a whole number of
-- microseconds where the source has a float of seconds; `-` on ℕ stops at 0, which is the
-- `max(..., 0.0)` of the source.
use fraud_analyzer_engine.Prelude.{
  Bool, leb, ◌||◌, ℕ, ◌+◌, ◌-◌, ◌*◌, ◌/◌, ◌≤◌, ◌<◌, ◌⊎◌, arith, max,
}

-- `time.monotonic()` and `time.time()`, read together
pub record Clocks : Type 0 where
  pub mono : ℕ
  pub wall : ℕ

-- in microseconds
unfoldable pub elapsed : Clocks → Clocks → ℕ
elapsed start now = max (now.mono - start.mono) (now.wall - start.wall)

-- `int(elapsed_ms(...))`
unfoldable pub elapsed_ms : Clocks → Clocks → ℕ
unfolding elapsed
elapsed_ms start now = elapsed start now / 1000

-- A delay in milliseconds from `now` is over at `later`, on one of the two clocks.
unfoldable pub is_over : Clocks → ℕ → Clocks → Bool
is_over now delay_ms later =
    leb (now.mono + delay_ms * 1000) later.mono || leb (now.wall + delay_ms * 1000) later.wall

-- Neither a clock that stands still nor one that is set back hides time that the other has seen:
-- the elapsed milliseconds reach a bound exactly when one of the two clocks alone has reached it.
pub elapsed_ms_exact :
    (start now : Clocks) (bound : ℕ)
    → 0 < bound
    → (bound ≤ elapsed_ms start now
        → (bound * 1000 + start.mono ≤ now.mono) ⊎ (bound * 1000 + start.wall ≤ now.wall))
      × ((bound * 1000 + start.mono ≤ now.mono) ⊎ (bound * 1000 + start.wall ≤ now.wall)
          → bound ≤ elapsed_ms start now)
unfolding elapsed_ms
elapsed_ms_exact start now bound h = omega arith
