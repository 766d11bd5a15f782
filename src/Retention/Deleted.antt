-- ===== src/Retention/Deleted.antt =====
-- What the deletions of the pruning leave of each query's rows.
use fraud_analyzer_engine.Prelude.{
  ℕ, suc, ◌+◌, ◌-◌, ◌≤◌, ◌≡◌, refl, String, Bool, true, false, Option, none, some, List, [], ◌∷◌,
  arith, ltb, leb, texts, eq_iff, if◌then◌else◌, length, same_option, inl, inr, Option-cases,
}
use fraud_analyzer_engine.Retention.Defs.{LogRow, remaining, rowcount, is_of, past, rows_of, times}
use fraud_analyzer_engine.Retention.Newest.{count_after}

-- the rows of a moment or later
abbrev pub newer : ℕ → List LogRow → List LogRow
newer since [] = []
newer since (r ∷ logs) = if leb since r.executed_at then r ∷ newer since logs else newer since logs

pub newer-zero : (logs : List LogRow) → newer 0 logs ≡ logs
newer-zero [] = refl
newer-zero (r ∷ logs) = ground (arith, newer-zero logs)

pub newer-newer :
    (a b : ℕ) (logs : List LogRow) → newer a (newer b logs) ≡ newer (if leb a b then b else a) logs
newer-newer a b [] = refl
newer-newer a b (r ∷ logs) = ground (arith, newer-newer a b logs)

pub length-newer :
    (c : ℕ) (logs : List LogRow) → length (newer (suc c) logs) ≡ count_after c (times logs)
length-newer c [] = refl
length-newer c (r ∷ logs) = ground (arith, length-newer c logs)

pub length-newer-le : (since : ℕ) (logs : List LogRow) → length (newer since logs) ≤ length logs
length-newer-le since [] = omega arith
length-newer-le since (r ∷ logs) = ground (arith, length-newer-le since logs)

pub length-times : (logs : List LogRow) → length (times logs) ≡ length logs
length-times [] = refl
length-times (r ∷ logs) = ground (arith, length-times logs)

pub rows_of-remaining_same :
    (q : String) (cutoff : ℕ) (logs : List LogRow)
    → rows_of (some q) (remaining (past q cutoff) logs) ≡ newer (suc cutoff) (rows_of (some q) logs)
rows_of-remaining_same q cutoff [] = refl
rows_of-remaining_same q cutoff (r ∷ logs) = ground (arith, rows_of-remaining_same q cutoff logs)

is_of_two :
    (p : Option String) (q : String) (r : LogRow)
    → is_of p r ≡ true
    → same_option p (some q) ≡ false
    → is_of (some q) r ≡ false
is_of_two none q r h n = elim (Option-cases r.query_id) [
  | inl e ↦ rw e refl
  | inr (s, e) ↦ ground (arith, e)
]
is_of_two (some p) q r h n = elim (Option-cases r.query_id) [
  | inl e ↦ rw e refl
  | inr (s, e) ↦ rw e (ground (arith, e, eq_iff s p, eq_iff s q, eq_iff p q))
]

pub rows_of-remaining_other :
    (p : Option String) (q : String) (cutoff : ℕ) (logs : List LogRow)
    → same_option p (some q) ≡ false
    → rows_of p (remaining (past q cutoff) logs) ≡ rows_of p logs
rows_of-remaining_other p q cutoff [] n = refl
rows_of-remaining_other p q cutoff (r ∷ logs) n =
    ground (arith, is_of_two p q r, rows_of-remaining_other p q cutoff logs n)

pub rows_of-remaining_old :
    (p : Option String) (now window : ℕ) (logs : List LogRow)
    → rows_of p (remaining (λ r. ltb (r.executed_at + window) now) logs)
      ≡ newer (now - window) (rows_of p logs)
rows_of-remaining_old p now window [] = refl
rows_of-remaining_old p now window (r ∷ logs) =
    ground (arith, rows_of-remaining_old p now window logs)

pub rowcount-remaining :
    (p : LogRow → Bool) (logs : List LogRow)
    → rowcount p logs + length (remaining p logs) ≡ length logs
rowcount-remaining p [] = refl
rowcount-remaining p (r ∷ logs) = ground (arith, rowcount-remaining p logs)
