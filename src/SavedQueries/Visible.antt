-- ===== src/SavedQueries/Visible.antt =====
-- What a caller sees of the stored queries.
use fraud_analyzer_engine.Prelude.{
  ◌≡◌, refl, ap, sym, ◌∙◌, String, Bool, true, false, ◌&&◌, some, List, [], ◌∷◌, arith, ◌==◌, texts,
  eq_iff, eq_refl, if◌then◌else◌, any, inl, inr, Option-cases,
}
use fraud_analyzer_engine.Prelude.Outcome.{Outcome, ok, raise}
use fraud_analyzer_engine.Dict
use fraud_analyzer_engine.Dict.{Dict, get, keep_where, get-keep_where, IsDistinct}
use fraud_analyzer_engine.Accounts.{User}
use fraud_analyzer_engine.SavedQueries.Defs.{
  StoredQuery, Db, Error, visible_to, get_owned, select_where, list_queries, list_visible_queries,
  found_in, list_queries_by_ids,
}

-- Each row stands under its id.
abbrev pub keyed : Dict StoredQuery → Bool
keyed [] = true
keyed ((k, q) ∷ queries) = k == q.id && keyed queries

abbrev pub add_found : Outcome Error StoredQuery → List StoredQuery → List StoredQuery
add_found (raise e) rest = rest
add_found (ok q) rest = q ∷ rest

-- the answers of `get_owned` for each id, without those that it does not find
unfoldable pub owned_of : Db → List String → User → List StoredQuery
owned_of db [] user = []
owned_of db (id ∷ ids) user = add_found (get_owned db id user) (owned_of db ids user)

-- the database without the rows that the caller may not see
abbrev pub hide : User → Db → Db
hide user db = record db { queries = keep_where (visible_to user) db.queries }

keyed_get :
    (id : String) (queries : Dict StoredQuery) (q : StoredQuery)
    → keyed queries ≡ true
    → get id queries ≡ some q
    → q.id ≡ id
unfolding get
keyed_get id [] q k h = ground arith
keyed_get id ((j, v) ∷ queries) q k h =
    ground (arith, eq_iff j id, eq_iff j v.id, keyed_get id queries q)

get_owned-hide :
    (db : Db) (id : String) (user : User)
    → IsDistinct db.queries
    → get_owned (hide user db) id user ≡ get_owned db id user
unfolding get_owned visible_to
get_owned-hide db id user u = elim (Option-cases (get id db.queries)) [
  | inl e ↦ ground (arith, e, get-keep_where (visible_to user) id db.queries u)
  | inr (q, e) ↦ ground (arith, e, get-keep_where (visible_to user) id db.queries u)
]

select-keep_where :
    (test visible : StoredQuery → Bool) (queries : Dict StoredQuery)
    → select_where (λ q. test q && visible q) (keep_where visible queries)
      ≡ select_where (λ q. test q && visible q) queries
unfolding select_where keep_where
select-keep_where test visible [] = refl
select-keep_where test visible ((k, q) ∷ queries) =
    ground (arith, select-keep_where test visible queries)

select-keep_where_self :
    (visible : StoredQuery → Bool) (queries : Dict StoredQuery)
    → select_where visible (keep_where visible queries) ≡ select_where visible queries
unfolding select_where keep_where
select-keep_where_self visible [] = refl
select-keep_where_self visible ((k, q) ∷ queries) =
    ground (arith, select-keep_where_self visible queries)

abbrev among : List String → List String → Bool
among [] query_ids = true
among (id ∷ ids) query_ids =
    if any (λ (i : String). i == id) query_ids then among ids query_ids else false

among_more :
    (ids query_ids : List String) (id : String)
    → among ids query_ids ≡ true
    → among ids (id ∷ query_ids) ≡ true
among_more [] query_ids id h = refl
among_more (i ∷ ids) query_ids id h = ground (arith, among_more ids query_ids id)

among_itself : (ids : List String) → among ids ids ≡ true
among_itself [] = refl
among_itself (id ∷ ids) = ground (arith, eq_refl id, among_more ids ids id (among_itself ids))

found_in-owned_of :
    (db : Db) (query_ids ids : List String) (user : User)
    → IsDistinct db.queries
    → keyed db.queries ≡ true
    → among ids query_ids ≡ true
    → found_in
        (keep_where
          (λ (q : StoredQuery). any (λ (id : String). id == q.id) query_ids && visible_to user q)
          db.queries)
        ids
      ≡ owned_of db ids user
unfolding found_in owned_of get_owned visible_to
found_in-owned_of db query_ids [] user u k a = refl
found_in-owned_of db query_ids (id ∷ ids) user u k a =
    let test =
      λ (q : StoredQuery). any (λ (i : String). i == q.id) query_ids && visible_to user q in
    let rest = found_in-owned_of db query_ids ids user u k (ground arith) in
    elim (Option-cases (get id db.queries)) [
      | inl e ↦ ground (arith, e, get-keep_where test id db.queries u, rest)
      | inr (q, e) ↦ ground (
        arith,
        e,
        get-keep_where test id db.queries u,
        rest,
        ap (λ (i : String). any (λ (j : String). j == i) query_ids) (keyed_get id db.queries q k e),
      )
    ]

-- In a table with one row to an id, the batch answers, in the order asked for, what `get_owned` answers
-- for each id; the ids that it does not find are left out.
pub list_queries_by_ids-owned_of :
    (db : Db) (query_ids : List String) (user : User)
    → IsDistinct db.queries
    → keyed db.queries ≡ true
    → list_queries_by_ids db query_ids user ≡ owned_of db query_ids user
unfolding list_queries_by_ids owned_of
list_queries_by_ids-owned_of db [] user u k = refl
list_queries_by_ids-owned_of db (id ∷ ids) user u k =
    found_in-owned_of db (id ∷ ids) (id ∷ ids) user u k (among_itself (id ∷ ids))

keep_where-keyed :
    (visible : StoredQuery → Bool) (queries : Dict StoredQuery)
    → keyed queries ≡ true
    → keyed (keep_where visible queries) ≡ true
unfolding keep_where
keep_where-keyed visible [] k = refl
keep_where-keyed visible ((j, q) ∷ queries) k = ground (arith, keep_where-keyed visible queries)

owned_of-hide :
    (db : Db) (ids : List String) (user : User)
    → IsDistinct db.queries
    → owned_of (hide user db) ids user ≡ owned_of db ids user
unfolding owned_of
owned_of-hide db [] user u = refl
owned_of-hide db (id ∷ ids) user u =
    rw (get_owned-hide db id user u, owned_of-hide db ids user u) refl

-- In a table with one row to an id, what a caller reads by id, by connection, in all or in a batch is
-- what they would read if the queries that they may not see were not there: the answers say nothing of
-- those.
pub reads-hide :
    (db : Db) (user : User) (id connection_id : String) (query_ids : List String)
    → IsDistinct db.queries
    → keyed db.queries ≡ true
    → (get_owned (hide user db) id user ≡ get_owned db id user)
      × (list_queries (hide user db) connection_id user ≡ list_queries db connection_id user)
      × (list_visible_queries (hide user db) user ≡ list_visible_queries db user)
      × (list_queries_by_ids (hide user db) query_ids user ≡ list_queries_by_ids db query_ids user)
unfolding list_queries list_visible_queries
reads-hide db user id connection_id query_ids u k = (
  get_owned-hide db id user u,
  select-keep_where (λ (q : StoredQuery). q.connection_id == connection_id) (visible_to user)
      db.queries,
  select-keep_where_self (visible_to user) db.queries,
  list_queries_by_ids-owned_of (hide user db) query_ids user
        (Dict.keep_where-IsDistinct (visible_to user) db.queries u)
        (keep_where-keyed (visible_to user) db.queries k)
      ∙ owned_of-hide db query_ids user u
      ∙ sym (list_queries_by_ids-owned_of db query_ids user u k),
)
