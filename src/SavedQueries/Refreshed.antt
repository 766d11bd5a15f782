-- ===== src/SavedQueries/Refreshed.antt =====
-- What a refresh runs, and what it shows.
use fraud_analyzer_engine.Prelude.{
  ℕ, zero, suc, ◌≤◌, ◌≡◌, refl, String, Bool, true, not, ◌||◌, Option, List, [], ◌∷◌, arith, texts,
  length,
}
use fraud_analyzer_engine.Prelude.Outcome.{is_ok}
use fraud_analyzer_engine.Dict.{Dict, IsDistinct}
use fraud_analyzer_engine.Accounts.{User}
use fraud_analyzer_engine.Execution.{take}
use fraud_analyzer_engine.Queries.{Stores, Run, Program}
use fraud_analyzer_engine.SavedQueries.Defs.{
  StoredQuery, Db, get_owned, get_viewable, select_where, queries_with_rules, alert_visible_to,
}
use fraud_analyzer_engine.SavedQueries.Visible.{keyed}
use fraud_analyzer_engine.SavedQueries.Refresh.{
  is_in, ids_of, keep, Plan, may_run, plan_refresh, run_one, visit_queries, flagged_for_connection,
}
use fraud_analyzer_engine.SavedQueries.Selected.{
  all_ids, all_ids-is_in, AllStored, all_rows, select-AllStored, keep-get_owned, shown-get_viewable,
}

all_ids-keep :
    (good : String → Bool) (test : StoredQuery → Bool) (queries : List StoredQuery)
    → all_ids good (ids_of queries) ≡ true
    → all_ids good (ids_of (keep test queries)) ≡ true
all_ids-keep good test [] a = refl
all_ids-keep good test (q ∷ queries) a = ground (arith, all_ids-keep good test queries)

all_ids-take :
    (good : String → Bool) (n : ℕ) (queries : List StoredQuery)
    → all_ids good (ids_of queries) ≡ true
    → all_ids good (ids_of (take n queries)) ≡ true
all_ids-take good zero queries a = refl
all_ids-take good (suc n) [] a = refl
all_ids-take good (suc n) (q ∷ queries) a = ground (arith, all_ids-take good n queries)

all_ids-listed :
    (good : String → Bool) (ids : List String) (queries : List StoredQuery)
    → all_ids good ids ≡ true
    → all_ids good (ids_of (keep (λ (q : StoredQuery). is_in q.id ids) queries)) ≡ true
all_ids-listed good ids [] a = refl
all_ids-listed good ids (q ∷ queries) a =
    ground (arith, all_ids-is_in good q.id ids a, all_ids-listed good ids queries a)

select-all_rows :
    (test more : StoredQuery → Bool) (queries : Dict StoredQuery)
    → ((q : StoredQuery) → test q ≡ true → more q ≡ true)
    → all_rows more (select_where test queries) ≡ true
unfolding select_where
select-all_rows test more [] h = refl
select-all_rows test more ((k, q) ∷ queries) h =
    ground (arith, h q, select-all_rows test more queries h)

abbrev pub section_ids : List (String × Option String) → List String
section_ids [] = []
section_ids ((id, error) ∷ sections) = id ∷ section_ids sections

module _ {V C : Type 0} (program : Program V C) (translated : String) (user : User) where
  visit_queries-executed :
      (good : String → Bool) (runs : String → Run V C) (refresh : Bool) (runnable : List String)
      (queries : List StoredQuery) (stores : Stores V C)
      → all_ids good runnable ≡ true
      → all_ids good
          (visit_queries program translated user runs refresh runnable queries stores).executed
        ≡ true
  unfolding visit_queries
  visit_queries-executed good runs refresh runnable [] stores a = refl
  visit_queries-executed good runs refresh runnable (q ∷ queries) stores a = ground (
    arith,
    all_ids-is_in good q.id runnable a,
    visit_queries-executed good runs refresh runnable queries stores a,
    visit_queries-executed good runs refresh runnable queries
        (run_one program translated user q (runs q.id) stores).2 a,
  )

  visit_queries-sections :
      (good : String → Bool) (runs : String → Run V C) (refresh : Bool) (runnable : List String)
      (queries : List StoredQuery) (stores : Stores V C)
      → all_ids good (ids_of queries) ≡ true
      → all_ids good (
          section_ids
            (visit_queries program translated user runs refresh runnable queries stores).sections)
        ≡ true
  unfolding visit_queries
  visit_queries-sections good runs refresh runnable [] stores a = refl
  visit_queries-sections good runs refresh runnable (q ∷ queries) stores a = ground (
    arith,
    visit_queries-sections good runs refresh runnable queries stores,
    visit_queries-sections good runs refresh runnable queries
        (run_one program translated user q (runs q.id) stores).2,
  )

  pub visit_queries-length :
      (runs : String → Run V C) (refresh : Bool) (runnable : List String)
      (queries : List StoredQuery) (stores : Stores V C)
      → length (visit_queries program translated user runs refresh runnable queries stores).executed
        ≤ length (keep (λ (q : StoredQuery). is_in q.id runnable) queries)
  unfolding visit_queries
  visit_queries-length runs refresh runnable [] stores = omega arith
  visit_queries-length runs refresh runnable (q ∷ queries) stores = ground (
    arith,
    visit_queries-length runs refresh runnable queries stores,
    visit_queries-length runs refresh runnable queries
        (run_one program translated user q (runs q.id) stores).2,
  )

  module _ (max_queries : ℕ) (db : Db) (connection_id : String) (refresh : Bool) where
    planned : Plan
    planned = plan_refresh max_queries user (queries_with_rules db connection_id user) refresh

    planned-runnable :
        (good : String → Bool)
        → all_ids good (ids_of (keep (may_run user) (queries_with_rules db connection_id user)))
          ≡ true
        → all_ids good planned.runnable ≡ true
    unfolding planned plan_refresh
    planned-runnable good a =
        let queries = queries_with_rules db connection_id user in
        let own = ids_of (keep (may_run user) queries) in
        ground (
          arith,
          all_ids-take good max_queries (keep (λ (q : StoredQuery). is_in q.id own) queries)
              (all_ids-listed good own queries a),
        )

    planned-queries :
        (good : String → Bool)
        → all_ids good (ids_of (queries_with_rules db connection_id user)) ≡ true
        → all_ids good (ids_of planned.queries) ≡ true
    unfolding planned plan_refresh
    planned-queries good a =
        let queries = queries_with_rules db connection_id user in
        let own = ids_of (keep (may_run user) queries) in
        let mine = keep (λ (q : StoredQuery). is_in q.id own) queries in
        let kept = ids_of (take max_queries mine) in
        ground (
          arith,
          all_ids-keep good (λ (q : StoredQuery). is_in q.id kept || not (is_in q.id own)) queries
              a,
        )

    module _ (runs : String → Run V C) (stores : Stores V C) (distinct : IsDistinct db.queries)
        (is_keyed : keyed db.queries ≡ true) where
      stored : AllStored db.queries (queries_with_rules db connection_id user)
      unfolding queries_with_rules
      stored = select-AllStored _ db.queries db.queries (λ k q g. g) distinct is_keyed

      visible :
          all_rows (alert_visible_to db user) (queries_with_rules db connection_id user) ≡ true
      unfolding queries_with_rules
      visible = select-all_rows _ (alert_visible_to db user) db.queries (λ q h. ground arith)

      -- In a table with one row to an id, a refresh runs only queries that `get_owned` gives the caller,
      -- and shows only queries that `get_viewable` gives them.
      pub flagged_for_connection-get_owned :
          (all_ids
              (λ (id : String). is_ok (get_owned db id user))
              (flagged_for_connection program translated user max_queries db connection_id refresh
                runs stores).executed
            ≡ true)
          × (all_ids
                (λ (id : String). is_ok (get_viewable db id user))
                (section_ids
                  (flagged_for_connection program translated user max_queries db connection_id
                    refresh runs stores).sections)
              ≡ true)
      unfolding flagged_for_connection planned
      flagged_for_connection-get_owned = (
        visit_queries-executed (λ (id : String). is_ok (get_owned db id user)) runs refresh
            planned.runnable planned.queries stores
            (planned-runnable (λ (id : String). is_ok (get_owned db id user))
              (keep-get_owned db user (queries_with_rules db connection_id user) stored)),
        visit_queries-sections (λ (id : String). is_ok (get_viewable db id user)) runs refresh
            planned.runnable planned.queries stores
            (planned-queries (λ (id : String). is_ok (get_viewable db id user))
              (shown-get_viewable db user (queries_with_rules db connection_id user) stored
                visible)),
      )
