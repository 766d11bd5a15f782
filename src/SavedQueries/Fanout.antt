-- ===== src/SavedQueries/Fanout.antt =====
-- How many queries a refresh runs.
use fraud_analyzer_engine.Prelude.{
  ℕ, zero, suc, ◌≤◌, ◌<◌, ◌≡◌, refl, String, Bool, true, false, not, ◌||◌, none, List, [], ◌∷◌,
  arith, ltb, ◌==◌, texts, eq_iff, if◌then◌else◌, length, inl, inr, Bool-cases,
}
use fraud_analyzer_engine.Dict.{Dict, get, IsDistinct}
use fraud_analyzer_engine.Accounts.{User}
use fraud_analyzer_engine.Execution.{take}
use fraud_analyzer_engine.Queries.{Stores, Run, Program}
use fraud_analyzer_engine.SavedQueries.Defs.{StoredQuery, Db, select_where, queries_with_rules}
use fraud_analyzer_engine.SavedQueries.Visible.{keyed}
use fraud_analyzer_engine.SavedQueries.Refresh.{
  is_in, ids_of, keep, may_run, plan_refresh, visit_queries, flagged_for_connection,
}
use fraud_analyzer_engine.SavedQueries.Refreshed.{visit_queries-length}

abbrev drop_id : String → List String → List String
drop_id id [] = []
drop_id id (i ∷ ids) = if i == id then drop_id id ids else i ∷ drop_id id ids

length-drop_id-le : (id : String) (ids : List String) → length (drop_id id ids) ≤ length ids
length-drop_id-le id [] = omega arith
length-drop_id-le id (i ∷ ids) = ground (arith, length-drop_id-le id ids)

length-drop_id-lt :
    (id : String) (ids : List String) → is_in id ids ≡ true → length (drop_id id ids) < length ids
length-drop_id-lt id [] h = ground arith
length-drop_id-lt id (i ∷ ids) h =
    ground (arith, length-drop_id-le id ids, length-drop_id-lt id ids)

is_in-drop_id :
    (id j : String) (ids : List String) → (j == id) ≡ false → is_in j (drop_id id ids) ≡ is_in j ids
is_in-drop_id id j [] n = refl
is_in-drop_id id j (i ∷ ids) n =
    ground (arith, eq_iff i id, eq_iff i j, eq_iff j id, is_in-drop_id id j ids)

-- No id stands twice.
abbrev distinct_ids : List StoredQuery → Bool
distinct_ids [] = true
distinct_ids (q ∷ queries) = if is_in q.id (ids_of queries) then false else distinct_ids queries

keep-drop_id :
    (id : String) (ids : List String) (queries : List StoredQuery)
    → is_in id (ids_of queries) ≡ false
    → length (keep (λ (q : StoredQuery). is_in q.id (drop_id id ids)) queries)
      ≡ length (keep (λ (q : StoredQuery). is_in q.id ids) queries)
keep-drop_id id ids [] n = refl
keep-drop_id id ids (q ∷ queries) n =
    ground (arith, is_in-drop_id id q.id ids, keep-drop_id id ids queries)

keep-length-le :
    (ids : List String) (queries : List StoredQuery)
    → distinct_ids queries ≡ true
    → length (keep (λ (q : StoredQuery). is_in q.id ids) queries) ≤ length ids
keep-length-le ids [] d = omega arith
keep-length-le ids (q ∷ queries) d = ground (
  arith,
  keep-length-le ids queries,
  keep-length-le (drop_id q.id ids) queries,
  keep-drop_id q.id ids queries,
  length-drop_id-lt q.id ids,
)

keep_twice :
    (test more : StoredQuery → Bool) (queries : List StoredQuery)
    → keep test (keep (λ (q : StoredQuery). test q || more q) queries) ≡ keep test queries
keep_twice test more [] = refl
keep_twice test more (q ∷ queries) = ground (arith, keep_twice test more queries)

length-ids_of-take : (n : ℕ) (queries : List StoredQuery) → length (ids_of (take n queries)) ≤ n
length-ids_of-take zero queries = omega arith
length-ids_of-take (suc n) [] = omega arith
length-ids_of-take (suc n) (q ∷ queries) = ground (arith, length-ids_of-take n queries)

select_where-absent :
    (test : StoredQuery → Bool) (id : String) (queries : Dict StoredQuery)
    → get id queries ≡ none
    → keyed queries ≡ true
    → is_in id (ids_of (select_where test queries)) ≡ false
unfolding select_where get
select_where-absent test id [] n k = refl
select_where-absent test id ((j, q) ∷ queries) n k =
    ground (arith, eq_iff j q.id, eq_iff j id, eq_iff q.id id, select_where-absent test id queries)

select_where-distinct_ids :
    (test : StoredQuery → Bool) (queries : Dict StoredQuery)
    → IsDistinct queries
    → keyed queries ≡ true
    → distinct_ids (select_where test queries) ≡ true
unfolding select_where
select_where-distinct_ids test [] u k = refl
select_where-distinct_ids test ((j, q) ∷ queries) u k = ground (
  arith,
  (eq_iff j q.id).0 (ground arith),
  u.0,
  select_where-absent test j queries u.0,
  select_where-distinct_ids test queries u.1,
)

module _ (max_queries : ℕ) (user : User) (queries : List StoredQuery) where
  own : List String
  own = ids_of (keep (may_run user) queries)

  mine : List StoredQuery
  mine = keep (λ (q : StoredQuery). is_in q.id own) queries

  kept : List String
  kept = ids_of (take max_queries mine)

  plan_many :
      ltb max_queries (length mine) ≡ true
      → plan_refresh max_queries user queries true ≡ record {
        queries = keep (λ (q : StoredQuery). is_in q.id kept || not (is_in q.id own)) queries;
        runnable = kept;
        truncated = true;
      }
  unfolding plan_refresh own mine kept
  plan_many h = ground (arith, h)

  plan_few :
      ltb max_queries (length mine) ≡ false
      → plan_refresh max_queries user queries true
        ≡ record { queries = queries; runnable = own; truncated = false }
  unfolding plan_refresh own mine kept
  plan_few h = ground (arith, h)

  few_le :
      ltb max_queries (length mine) ≡ false
      → length (keep (λ (q : StoredQuery). is_in q.id own) queries) ≤ max_queries
  unfolding mine
  few_le few = ground (arith, few)

  many_le :
      distinct_ids queries ≡ true
      → length (
          keep
            (λ (q : StoredQuery). is_in q.id kept)
            (keep (λ (q : StoredQuery). is_in q.id kept || not (is_in q.id own)) queries))
        ≤ max_queries
  unfolding kept
  many_le d =
      rw
        (keep_twice (λ (q : StoredQuery). is_in q.id kept)
          (λ (q : StoredQuery). not (is_in q.id own)) queries)
        (omega (arith, keep-length-le kept queries d, length-ids_of-take max_queries mine))

  pub plan_refresh-length :
      distinct_ids queries ≡ true
      → length (
          keep
            (λ (q : StoredQuery). is_in q.id (plan_refresh max_queries user queries true).runnable)
            (plan_refresh max_queries user queries true).queries)
        ≤ max_queries
  plan_refresh-length d = elim (Bool-cases (ltb max_queries (length mine))) [
    | inr few ↦ rw (plan_few few) (few_le few)
    | inl many ↦ rw (plan_many many) (many_le d)
  ]

module _ {V C : Type 0} (program : Program V C) (translated : String) (user : User) where
  visit_queries-none :
      (runs : String → Run V C) (runnable : List String) (queries : List StoredQuery)
      (stores : Stores V C)
      → length (visit_queries program translated user runs false runnable queries stores).executed
        ≡ 0
  unfolding visit_queries
  visit_queries-none runs runnable [] stores = refl
  visit_queries-none runs runnable (q ∷ queries) stores =
      visit_queries-none runs runnable queries stores

  -- In a table with one row to an id, a refresh runs at most `flagged_refresh_max_queries` queries, and
  -- a view without a refresh none.
  pub flagged_for_connection-length :
      (max_queries : ℕ) (db : Db) (connection_id : String) (refresh : Bool)
      (runs : String → Run V C) (stores : Stores V C)
      → IsDistinct db.queries
      → keyed db.queries ≡ true
      → length
          (flagged_for_connection program translated user max_queries db connection_id refresh runs
            stores).executed
        ≤ (if refresh then max_queries else 0)
  unfolding flagged_for_connection queries_with_rules
  flagged_for_connection-length max_queries db connection_id true runs stores u k =
      let queries = queries_with_rules db connection_id user in
      let plan = plan_refresh max_queries user queries true in
      omega (
        arith,
        visit_queries-length program translated user runs true plan.runnable plan.queries stores,
        plan_refresh-length max_queries user queries (select_where-distinct_ids _ db.queries u k),
      )
  flagged_for_connection-length max_queries db connection_id false runs stores u k =
      let plan = plan_refresh max_queries user (queries_with_rules db connection_id user) false in
      omega (arith, visit_queries-none runs plan.runnable plan.queries stores)
