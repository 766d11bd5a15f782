-- ===== src/Retention/Trimmed.antt =====
-- What the rounds of the pruning leave of each query's log.
use fraud_analyzer_engine.Prelude.{
  ℕ, zero, suc, ◌-◌, ◌≤◌, ◌<◌, ◌≡◌, sym, ap, ◌∙◌, String, Bool, true, false, Option, none, some,
  List, [], ◌∷◌, arith, ltb, leb, ◌==◌, texts, eq_iff, if◌then◌else◌, length, get_elem?, any,
  same_option, inl, inr, Bool-cases, Option-cases,
}
use fraud_analyzer_engine.Retention.Defs.{
  LogRow, span, remaining, rowcount, past, trim_at, rows_of, times, newest_first, groups, over,
  over_quota, trim_query, trim_queries, trim_per_query, drop_old,
}
use fraud_analyzer_engine.Retention.Newest.{count_after-le, length-newest_first}
use fraud_analyzer_engine.Retention.Deleted.{
  newer, newer-zero, newer-newer, length-newer, length-newer-le, length-times,
  rows_of-remaining_same, rows_of-remaining_other, rows_of-remaining_old,
}

-- the rows of a query left by what leaves those of some moment or later
abbrev pub LeftNewer : Option String → List LogRow → List LogRow → Type 0
LeftNewer p logs out = (since : ℕ) × (rows_of p out ≡ newer since (rows_of p logs))

pub LeftNewer-same : (p : Option String) (logs : List LogRow) → LeftNewer p logs logs
LeftNewer-same p logs = (0, sym (newer-zero (rows_of p logs)))

pub LeftNewer-trans :
    (p : Option String) (logs middle out : List LogRow)
    → LeftNewer p logs middle
    → LeftNewer p middle out
    → LeftNewer p logs out
LeftNewer-trans p logs middle out (a, e) (b, f) =
    (if leb b a then a else b, f ∙ ap (newer b) e ∙ newer-newer b a (rows_of p logs))

pub LeftNewer-le :
    (p : Option String) (logs out : List LogRow)
    → LeftNewer p logs out
    → length (rows_of p out) ≤ length (rows_of p logs)
LeftNewer-le p logs out (a, e) = rw e (length-newer-le a (rows_of p logs))

pub trim_query-none :
    (keep : ℕ) (q : String) (logs : List LogRow)
    → get_elem? (newest_first (times (rows_of (some q) logs))) keep ≡ none
    → trim_query keep q logs ≡ (0, logs)
unfolding trim_query trim_at
trim_query-none keep q logs e = ap (λ (o : Option ℕ). trim_at q o logs) e

pub trim_query-some :
    (keep : ℕ) (q : String) (logs : List LogRow) (cutoff : ℕ)
    → get_elem? (newest_first (times (rows_of (some q) logs))) keep ≡ some cutoff
    → trim_query keep q logs ≡ (rowcount (past q cutoff) logs, remaining (past q cutoff) logs)
unfolding trim_query trim_at
trim_query-some keep q logs cutoff e = ap (λ (o : Option ℕ). trim_at q o logs) e

pub same_option-eq : (p : Option String) (q : String) → same_option p (some q) ≡ true → p ≡ some q
same_option-eq none q h = ground arith
same_option-eq (some p) q h = ap some ((eq_iff p q).0 h)

pub trim_query-LeftNewer :
    (keep : ℕ) (q : String) (p : Option String) (logs : List LogRow)
    → LeftNewer p logs (trim_query keep q logs).1
trim_query-LeftNewer keep q p logs =
    elim (Option-cases (get_elem? (newest_first (times (rows_of (some q) logs))) keep)) [
      | inl e ↦ rw (trim_query-none keep q logs e) (LeftNewer-same p logs)
      | inr (cutoff, e) ↦
          rw (trim_query-some keep q logs cutoff e) (elim (Bool-cases (same_option p (some q))) [
            | inr other ↦ (
              0,
              rows_of-remaining_other p q cutoff logs other ∙ sym (newer-zero (rows_of p logs)),
            )
            | inl same ↦
                rw (same_option-eq p q same) (suc cutoff, rows_of-remaining_same q cutoff logs)
          ])
    ]

pub trim_queries-LeftNewer :
    (keep : ℕ) (p : Option String) (ids : List String) (logs : List LogRow)
    → LeftNewer p logs (trim_queries keep ids logs).1
unfolding trim_queries
trim_queries-LeftNewer keep p [] logs = LeftNewer-same p logs
trim_queries-LeftNewer keep p (q ∷ ids) logs =
    LeftNewer-trans p logs (trim_query keep q logs).1
      (trim_queries keep ids (trim_query keep q logs).1).1 (trim_query-LeftNewer keep q p logs)
      (trim_queries-LeftNewer keep p ids (trim_query keep q logs).1)

pub drop_old-LeftNewer :
    (now days : ℕ) (p : Option String) (logs : List LogRow)
    → LeftNewer p logs (drop_old now days logs).1
unfolding drop_old
drop_old-LeftNewer now days p logs = elim (Bool-cases (ltb 0 days)) [
  | inr h ↦ rw h (LeftNewer-same p logs)
  | inl h ↦ rw h (now - span days, rows_of-remaining_old p now (span days) logs)
]

pub get_elem?-none : (ts : List ℕ) (k : ℕ) → get_elem? ts k ≡ none → length ts ≤ k
get_elem?-none [] k h = omega arith
get_elem?-none (t ∷ ts) zero h = ground arith
get_elem?-none (t ∷ ts) (suc k) h = ground (arith, get_elem?-none ts k)

-- A round leaves no more than `keep` rows of its query.
trim_query-length :
    (keep : ℕ) (q : String) (logs : List LogRow)
    → length (rows_of (some q) (trim_query keep q logs).1) ≤ keep
trim_query-length keep q logs =
    let ts = times (rows_of (some q) logs) in
    elim (Option-cases (get_elem? (newest_first ts) keep)) [
      | inl e ↦ rw (trim_query-none keep q logs e) (
          omega (
            arith,
            get_elem?-none (newest_first ts) keep e,
            length-newest_first ts,
            length-times (rows_of (some q) logs),
          ))
      | inr (cutoff, e) ↦
          rw (trim_query-some keep q logs cutoff e, rows_of-remaining_same)
            (omega
              (arith, count_after-le cutoff ts keep e, length-newer cutoff (rows_of (some q) logs)))
    ]

trimmed_id :
    (keep : ℕ) (p q : String) (logs : List LogRow)
    → p ≡ q
    → length (rows_of (some q) (trim_query keep p logs).1) ≤ keep
trimmed_id keep p q logs e = rw (sym e) (trim_query-length keep p logs)

abbrev is_id : String → List String → Bool
is_id q ids = any (λ (p : String). p == q) ids

trim_queries-length :
    (keep : ℕ) (q : String) (ids : List String) (logs : List LogRow)
    → is_id q ids ≡ true
    → length (rows_of (some q) (trim_queries keep ids logs).1) ≤ keep
unfolding trim_queries
trim_queries-length keep q [] logs h = ground arith
trim_queries-length keep q (p ∷ ids) logs h =
    let next = (trim_query keep p logs).1 in
    elim (Bool-cases (p == q)) [
      | inl e ↦ omega (
        arith,
        LeftNewer-le (some q) next (trim_queries keep ids next).1
            (trim_queries-LeftNewer keep (some q) ids next),
        trimmed_id keep p q logs ((eq_iff p q).0 e),
      )
      | inr n ↦ trim_queries-length keep q ids next (ground arith)
    ]

groups-is_id :
    (q : String) (logs : List LogRow)
    → 0 < length (rows_of (some q) logs)
    → is_id q (groups logs) ≡ true
unfolding groups
groups-is_id q [] h = ground arith
groups-is_id q (r ∷ logs) h = elim (Option-cases r.query_id) [
  | inl e ↦ ground (arith, e, groups-is_id q logs)
  | inr (p, e) ↦ ground (arith, e, eq_iff p q, groups-is_id q logs)
]

over-is_id :
    (keep : ℕ) (q : String) (logs : List LogRow) (ids : List String)
    → keep < length (rows_of (some q) logs)
    → is_id q ids ≡ true
    → is_id q (over keep logs ids) ≡ true
unfolding over
over-is_id keep q logs [] h m = m
over-is_id keep q logs (p ∷ ids) h m = ground (arith, eq_iff p q, over-is_id keep q logs ids h)

-- The rounds leave no more than `keep` rows of any query.
pub trim_per_query-length :
    (keep : ℕ) (q : String) (logs : List LogRow)
    → length (rows_of (some q) (trim_per_query keep logs).1) ≤ keep
unfolding trim_per_query over_quota
trim_per_query-length keep q logs = elim (Bool-cases (ltb keep (length (rows_of (some q) logs)))) [
  | inl h ↦
      trim_queries-length keep q (over_quota keep logs) logs
        (over-is_id keep q logs (groups logs) (ground arith) (groups-is_id q logs (ground arith)))
  | inr h ↦ omega (
    arith,
    LeftNewer-le (some q) logs (trim_per_query keep logs).1
        (trim_queries-LeftNewer keep (some q) (over_quota keep logs) logs),
    not_over keep (length (rows_of (some q) logs)) h,
  )
]
  where
    not_over : (a b : ℕ) → ltb a b ≡ false → b ≤ a
    not_over a b h = ground arith
