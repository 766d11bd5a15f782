-- ===== src/SavedQueries/Selected.antt =====
-- The queries that a refresh reads, and what the caller may do with them.
use fraud_analyzer_engine.Prelude.{
  ◌≡◌, refl, String, Bool, true, false, none, some, List, [], ◌∷◌, arith, ◌==◌, texts, eq_iff,
  if◌then◌else◌, inl, inr, Bool-cases,
}
use fraud_analyzer_engine.Prelude.Outcome.{is_ok}
use fraud_analyzer_engine.Dict.{Dict, get, IsDistinct}
use fraud_analyzer_engine.Accounts.{User}
use fraud_analyzer_engine.SavedQueries.Defs.{
  StoredQuery, Db, get_owned, get_viewable, select_where, alert_visible_to,
}
use fraud_analyzer_engine.SavedQueries.Visible.{keyed}
use fraud_analyzer_engine.SavedQueries.Refresh.{is_in, ids_of, keep, may_run}

abbrev pub all_ids : (String → Bool) → List String → Bool
all_ids test [] = true
all_ids test (id ∷ ids) = if test id then all_ids test ids else false

pub all_ids-is_in :
    (test : String → Bool) (id : String) (ids : List String)
    → all_ids test ids ≡ true
    → is_in id ids ≡ true
    → test id ≡ true
all_ids-is_in test id [] a h = ground arith
all_ids-is_in test id (i ∷ ids) a h = elim (Bool-cases (i == id)) [
  | inl e ↦ ground (arith, (eq_iff i id).0 e)
  | inr n ↦ all_ids-is_in test id ids (ground arith) (ground arith)
]

abbrev pub all_rows : (StoredQuery → Bool) → List StoredQuery → Bool
all_rows test [] = true
all_rows test (q ∷ queries) = if test q then all_rows test queries else false

-- Each row of the list stands in the table.
abbrev pub AllStored : Dict StoredQuery → List StoredQuery → Type 0
AllStored table [] = Unit
AllStored table (q ∷ queries) = (get q.id table ≡ some q) × AllStored table queries

get-later :
    (j k : String) (r q : StoredQuery) (queries : Dict StoredQuery)
    → get j queries ≡ none
    → get k queries ≡ some q
    → get k ((j, r) ∷ queries) ≡ some q
unfolding get
get-later j k r q queries n h = elim (Bool-cases (j == k)) [
  | inr other ↦ rw other h
  | inl same ↦ absurd (ground (arith, (eq_iff j k).0 same, n, h))
]

head_stored :
    (j : String) (r : StoredQuery) (queries table : Dict StoredQuery)
    → ((k : String) (q : StoredQuery) → get k ((j, r) ∷ queries) ≡ some q → get k table ≡ some q)
    → (j == r.id) ≡ true
    → get r.id table ≡ some r
unfolding get
head_stored j r queries table h e = h r.id r (ground (arith, e))

owned :
    (db : Db) (user : User) (q : StoredQuery)
    → get q.id db.queries ≡ some q
    → may_run user q ≡ true
    → is_ok (get_owned db q.id user) ≡ true
unfolding get_owned
owned db user q g h = ground (arith, g)

viewable :
    (db : Db) (user : User) (q : StoredQuery)
    → get q.id db.queries ≡ some q
    → alert_visible_to db user q ≡ true
    → is_ok (get_viewable db q.id user) ≡ true
unfolding get_viewable alert_visible_to
viewable db user q g h = ground (arith, g)

pub select-AllStored :
    (test : StoredQuery → Bool) (table queries : Dict StoredQuery)
    → ((k : String) (q : StoredQuery) → get k queries ≡ some q → get k table ≡ some q)
    → IsDistinct queries
    → keyed queries ≡ true
    → AllStored table (select_where test queries)
unfolding select_where
select-AllStored test table [] h u k = tt
select-AllStored test table ((j, r) ∷ queries) h u k =
    let rest =
      select-AllStored test table queries
        (λ (i : String) (q : StoredQuery) (g : get i queries ≡ some q).
          h i q (get-later j i r q queries u.0 g))
        u.1 (ground arith) in
    let own : get r.id table ≡ some r = head_stored j r queries table h (ground arith) in
    elim (Bool-cases (test r)) [
      | inl yes_test ↦ rw yes_test (own, rest)
      | inr no_test ↦ rw no_test rest
    ]

keep-AllStored :
    (test : StoredQuery → Bool) (table : Dict StoredQuery) (queries : List StoredQuery)
    → AllStored table queries
    → AllStored table (keep test queries)
keep-AllStored test table [] a = tt
keep-AllStored test table (q ∷ queries) a = elim (Bool-cases (test q)) [
  | inl h ↦ rw h (a.0, keep-AllStored test table queries a.1)
  | inr h ↦ rw h (keep-AllStored test table queries a.1)
]

-- What the caller may run, `get_owned` answers.
pub keep-get_owned :
    (db : Db) (user : User) (queries : List StoredQuery)
    → AllStored db.queries queries
    → all_ids (λ (id : String). is_ok (get_owned db id user)) (ids_of (keep (may_run user) queries))
      ≡ true
keep-get_owned db user [] a = refl
keep-get_owned db user (q ∷ queries) a = elim (Bool-cases (may_run user q)) [
  | inr h ↦ rw h (keep-get_owned db user queries a.1)
  | inl h ↦ rw (h, owned db user q a.0 h) (keep-get_owned db user queries a.1)
]

-- What is shown, `get_viewable` answers.
pub shown-get_viewable :
    (db : Db) (user : User) (queries : List StoredQuery)
    → AllStored db.queries queries
    → all_rows (alert_visible_to db user) queries ≡ true
    → all_ids (λ (id : String). is_ok (get_viewable db id user)) (ids_of queries) ≡ true
shown-get_viewable db user [] a v = refl
shown-get_viewable db user (q ∷ queries) a v =
    rw (viewable db user q a.0 (ground arith))
      (shown-get_viewable db user queries a.1 (ground arith))
