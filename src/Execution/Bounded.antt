-- ===== src/Execution/Bounded.antt =====
-- What comes back of a statement's rows: a prefix, within the row limit and the byte budget.
use fraud_analyzer_engine.Prelude.{
  ℕ, zero, suc, ◌+◌, ◌≤◌, ◌<◌, min, String, ◌≡◌, refl, sym, ap, ◌∙◌, false, List, [], ◌∷◌, map, ltb,
  if◌then◌else◌, length, arith, Bool-cases, inl, inr,
}
use fraud_analyzer_engine.Prelude.Outcome.{ok, raise}
use fraud_analyzer_engine.Execution.Json.{Value}
use fraud_analyzer_engine.Execution.Defs.{
  Limits, ExecutionError, ExecutionResult, Target, take, coerced, build_rows, fetch_rows,
  execute_sql,
}

take-take : {A : Type 0} (n : ℕ) (xs : List A) → take n (take (suc n) xs) ≡ take n xs
take-take zero xs = refl
take-take (suc n) [] = refl
take-take (suc n) (x ∷ xs) = ap (λ ys. x ∷ ys) (take-take n xs)

-- One row more than the limit tells whether there are more.
length-take : {A : Type 0} (n : ℕ) (xs : List A) → length (take n xs) ≡ min n (length xs)
length-take zero xs = omega arith
length-take (suc n) [] = omega arith
length-take (suc n) (x ∷ xs) = omega (arith, length-take n xs)

take-all : {A : Type 0} (n : ℕ) (xs : List A) → length xs ≤ n → take n xs ≡ xs
take-all zero [] h = refl
take-all zero (x ∷ xs) h = absurd (omega arith)
take-all (suc n) [] h = refl
take-all (suc n) (x ∷ xs) h = ap (λ ys. x ∷ ys) (take-all n xs (omega arith))

cut :
    {A : Type 0} (n : ℕ) (xs : List A)
    → (if ltb n (length (take (suc n) xs)) then take n (take (suc n) xs) else take (suc n) xs)
      ≡ take n xs
cut n xs = elim (Bool-cases (ltb n (length (take (suc n) xs)))) [
  | inl h ↦ rw h (take-take n xs)
  | inr h ↦
      let short : length xs ≤ n = ground (arith, length-take (suc n) xs) in
      rw h (take-all (suc n) xs (omega arith) ∙ sym (take-all n xs short))
]

more : {A : Type 0} (n : ℕ) (xs : List A) → ltb n (length (take (suc n) xs)) ≡ ltb n (length xs)
more n xs = ground (arith, length-take (suc n) xs)

module _ {F O : Type 0} (target : Target F O) where
  -- the bytes of some rows on the wire
  unfoldable pub bytes : List (List (Value F O)) → ℕ
  bytes [] = 0
  bytes (row ∷ rows) = target.dumps_len (coerced target row) + bytes rows

  build_rows-ok :
      (budget used count : ℕ) (fetched : List (List (Value F O)))
      → used + bytes fetched ≤ budget
      → build_rows target budget used count fetched ≡ ok (map (coerced target) fetched)
  unfolding build_rows bytes
  build_rows-ok budget used count [] h = refl
  build_rows-ok budget used count (row ∷ fetched) h =
      let used' = used + target.dumps_len (coerced target row) in
      let rest = build_rows-ok budget used' (suc count) fetched (omega arith) in
      let within : ltb budget used' ≡ false = ground arith in rw (within, rest) refl

  build_rows-raise :
      (budget used count : ℕ) (fetched : List (List (Value F O)))
      → used ≤ budget
      → budget < used + bytes fetched
      → (n : ℕ) × (build_rows target budget used count fetched
          ≡ raise (ExecutionError.result_too_large budget (n + count)))
        × (used + bytes (take n fetched) ≤ budget)
        × (budget < used + bytes (take (suc n) fetched))
  unfolding build_rows bytes
  build_rows-raise budget used count [] u h = absurd (omega arith)
  build_rows-raise budget used count (row ∷ fetched) u h =
      let used' = used + target.dumps_len (coerced target row) in
      elim (Bool-cases (ltb budget used')) [
        | inl b ↦ (
          0,
          rw b (ap (λ n. raise (ExecutionError.result_too_large budget n)) (omega arith)),
          omega arith,
          ground arith,
        )
        | inr b ↦
            let (n, rest, low, high) =
              build_rows-raise budget used' (suc count) fetched (ground arith) (omega arith) in
            (
              suc n,
              rw (b, rest)
                  (ap (λ n. raise (ExecutionError.result_too_large budget n)) (omega arith)),
              omega arith,
              omega arith,
            )
      ]

  -- The result of a statement: the first rows up to the limit, each made JSON.
  abbrev pub first_rows :
      ℕ → ℕ → List String → List (List (Value F O)) → ExecutionResult (Value F O)
  first_rows row_limit duration_ms columns all = record {
    columns = columns;
    rows = map (coerced target) (take row_limit all);
    row_count = length (map (coerced target) (take row_limit all));
    truncated = ltb row_limit (length all);
    duration_ms = duration_ms;
  }

  length-map : {A B : Type 0} (f : A → B) (xs : List A) → length (map f xs) ≡ length xs
  length-map f [] = refl
  length-map f (x ∷ xs) = ap suc (length-map f xs)

  -- If the rows up to the limit are within the budget, they are the result, no more of them than the limit,
  -- and it is marked as truncated just when the target had more.
  pub execute_sql-ok :
      (limits : Limits) (sql safe : String) (row_limit duration_ms : ℕ) (columns : List String)
      (all : List (List (Value F O)))
      → target.validate_select sql ≡ ok safe
      → target.execute safe ≡ ok (columns, all)
      → bytes (take row_limit all) ≤ limits.max_result_bytes
      → (execute_sql target limits sql row_limit duration_ms
          ≡ ok (first_rows row_limit duration_ms columns all))
        × ((first_rows row_limit duration_ms columns all).row_count ≤ row_limit)
  unfolding execute_sql fetch_rows
  execute_sql-ok limits sql safe row_limit duration_ms columns all v e h = (
    rw
        (
          v,
          e,
          cut row_limit all,
          more row_limit all,
          build_rows-ok limits.max_result_bytes 0 0 (take row_limit all) (omega arith),
        )
        refl,
    omega (arith, length-map (coerced target) (take row_limit all), length-take row_limit all),
  )

  -- If they are not, the error has the budget and the number of the rows that were within it: with the
  -- next row it is passed.
  pub execute_sql-raise :
      (limits : Limits) (sql safe : String) (row_limit duration_ms : ℕ) (columns : List String)
      (all : List (List (Value F O)))
      → target.validate_select sql ≡ ok safe
      → target.execute safe ≡ ok (columns, all)
      → limits.max_result_bytes < bytes (take row_limit all)
      → (n : ℕ) × (execute_sql target limits sql row_limit duration_ms
          ≡ raise (ExecutionError.result_too_large limits.max_result_bytes n))
        × (bytes (take n (take row_limit all)) ≤ limits.max_result_bytes)
        × (limits.max_result_bytes < bytes (take (suc n) (take row_limit all)))
  unfolding execute_sql fetch_rows
  execute_sql-raise limits sql safe row_limit duration_ms columns all v e h =
      let (n, r, low, high) =
        build_rows-raise limits.max_result_bytes 0 0 (take row_limit all) (omega arith)
          (omega arith) in
      (
        n,
        rw (v, e, cut row_limit all, r)
            (ap (λ m. raise (ExecutionError.result_too_large limits.max_result_bytes m))
              (omega arith)),
        omega arith,
        omega arith,
      )
