-- ===== src/RateLimit/Counting.antt =====
-- What a window of ratelimit.py counts, and whom it lets through.
use fraud_analyzer_engine.Prelude.{
  ℕ, ◌+◌, ◌≤◌, ◌<◌, min, String, ◌≡◌, refl, Bool, true, none, some, List, [], ◌∷◌, arith, leb, ◌==◌,
  texts, numbers, if◌then◌else◌, length, eq_iff, all,
}
use fraud_analyzer_engine.Dict
use fraud_analyzer_engine.Dict.{Dict, IsDistinct, get-set, set-IsDistinct}
use fraud_analyzer_engine.RateLimit.Defs.{
  Window, window_of, reset_in, seconds, purge, count_in, hit,
}

get-purge-none :
    (w : ℕ) (k : String) (d : Window) → Dict.get k d ≡ none → Dict.get k (purge w d) ≡ none
unfolding purge Dict.get
get-purge-none w k [] h = refl
get-purge-none w k ((j, v) ∷ d) h = ground (arith, get-purge-none w k d)

purge-IsDistinct : (w : ℕ) (d : Window) → IsDistinct d → IsDistinct (purge w d)
unfolding purge
purge-IsDistinct w [] u = tt
purge-IsDistinct w ((j, v) ∷ d) u = ground (arith, get-purge-none w j d, purge-IsDistinct w d u.1)

get-purge :
    (w : ℕ) (k : String) (d : Window) → IsDistinct d → count_in w k (purge w d) ≡ count_in w k d
unfolding purge Dict.get count_in
get-purge w k [] u = refl
get-purge w k ((j, v) ∷ d) u = ground (arith, eq_iff j k, get-purge w k d u.1, get-purge-none w j d)

-- What is left after a purge is of the current window.
purge-current :
    (w : ℕ) (k : String) (v : ℕ × ℕ) (d : Window) → Dict.get k (purge w d) ≡ some v → v.0 ≡ w
unfolding purge Dict.get
purge-current w k v [] h = ground arith
purge-current w k v ((j, x) ∷ d) h = ground (arith, purge-current w k v d)

pub hit-IsDistinct :
    (key : String) (limit now : ℕ) (counts : Window)
    → IsDistinct counts
    → IsDistinct (hit key limit now counts).1
unfolding hit
hit-IsDistinct key limit now counts u = ground (
  arith,
  set-IsDistinct key (window_of now, count_in (window_of now) key counts + 1) counts u,
  purge-IsDistinct (window_of now)
      (Dict.set key (window_of now, count_in (window_of now) key counts + 1) counts),
)

-- A request adds one to the count of its client in the current window and leaves every other
-- client's count there as it was, also when the table is purged.
pub count_in-hit :
    (key k : String) (limit now : ℕ) (counts : Window)
    → IsDistinct counts
    → count_in (window_of now) k (hit key limit now counts).1 ≡ (
        if key == k
        then count_in (window_of now) key counts + 1
        else count_in (window_of now) k counts)
unfolding hit count_in
count_in-hit key k limit now counts u = ground (
  arith,
  eq_iff key k,
  get-set key k (window_of now, count_in (window_of now) key counts + 1) counts,
  set-IsDistinct key (window_of now, count_in (window_of now) key counts + 1) counts u,
  get-purge (window_of now) k
      (Dict.set key (window_of now, count_in (window_of now) key counts + 1) counts),
)

hit_answer :
    (key : String) (limit now : ℕ) (counts : Window)
    → (hit key limit now counts).0.0 ≡ leb (count_in (window_of now) key counts + 1) limit
unfolding hit
hit_answer key limit now counts = refl

-- After a request the table has at most 10,000 entries, or all of them are of the current window.
pub hit-memory :
    (key k : String) (v : ℕ × ℕ) (limit now : ℕ) (counts : Window)
    → 10000 < length (hit key limit now counts).1
    → Dict.get k (hit key limit now counts).1 ≡ some v
    → v.0 ≡ window_of now
unfolding hit
hit-memory key k v limit now counts big h = ground (
  arith,
  purge-current (window_of now) k v
      (Dict.set key (window_of now, count_in (window_of now) key counts + 1) counts),
)

-- The seconds until the window resets are 1 to 60, and that much later the next window has begun.
pub reset_in_lem :
    (now : ℕ)
    → (1 ≤ reset_in now)
      × (reset_in now ≤ 60)
      × (window_of (now + seconds (reset_in now)) ≡ window_of now + 1)
reset_in_lem now = omega arith

-- A run of requests against one bucket: the client and the time of each. The answers, in order.
unfoldable pub run : ℕ → List (String × ℕ) → Window → List Bool × Window
run limit [] counts = ([], counts)
run limit ((key, now) ∷ rest) counts =
    let (answer, counts') = hit key limit now counts in
    let (answers, last) = run limit rest counts' in (answer.0 ∷ answers, last)

abbrev pub requests_of : String → List (String × ℕ) → ℕ
requests_of k [] = 0
requests_of k ((key, now) ∷ rest) = (if key == k then 1 else 0) + requests_of k rest

abbrev pub allowed_of : String → List (String × ℕ) → List Bool → ℕ
allowed_of k [] answers = 0
allowed_of k (r ∷ rest) [] = 0
allowed_of k ((key, now) ∷ rest) (b ∷ answers) =
    (if key == k then (if b then 1 else 0) else 0) + allowed_of k rest answers

-- Within one window every client gets exactly its budget: of the requests of a client, however they
-- are mixed with those of others, the first ones pass, up to the limit less what the client has
-- used, and no more.
pub run-budget :
    (k : String) (limit w : ℕ) (requests : List (String × ℕ)) (counts : Window)
    → all (λ r. window_of r.1 == w) requests ≡ true
    → IsDistinct counts
    → min limit (count_in w k counts) + allowed_of k requests (run limit requests counts).0
      ≡ min limit (count_in w k counts + requests_of k requests)
unfolding run
run-budget k limit w [] counts h u = omega arith
run-budget k limit w ((key, now) ∷ rest) counts h u =
    let e : window_of now ≡ w = ground (arith) in
    let counted : count_in w k (hit key limit now counts).1
        ≡ (if key == k then count_in w key counts + 1 else count_in w k counts) =
      rw (← e) (count_in-hit key k limit now counts u) in
    let answered : (hit key limit now counts).0.0 ≡ leb (count_in w key counts + 1) limit =
      rw (← e) (hit_answer key limit now counts) in
    ground (
      arith,
      eq_iff key k,
      counted,
      answered,
      run-budget k limit w rest (hit key limit now counts).1 (ground arith)
          (hit-IsDistinct key limit now counts u),
    )
