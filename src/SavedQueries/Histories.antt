-- ===== src/SavedQueries/Histories.antt =====
-- The tables that the writes can produce.
use fraud_analyzer_engine.Prelude.{ℕ, ◌≡◌, refl, String, true, false, Option, some, []}
use fraud_analyzer_engine.Prelude.Outcome.{ok}
use fraud_analyzer_engine.Dict.{get}
use fraud_analyzer_engine.Execution.{Limits, Target}
use fraud_analyzer_engine.ResultCache.{Caches}
use fraud_analyzer_engine.SavedQueries.Defs.{StoredQuery, Db}
use fraud_analyzer_engine.SavedQueries.Service.{
  SavedQueryCreate, SavedQueryUpdate, create_query, update_query, delete_query,
}
use fraud_analyzer_engine.SavedQueries.Stored.{
  has_limit, IsWellFormed, is_empty, create_query-IsWellFormed, update_query-IsWellFormed,
  delete_query-IsWellFormed,
}

module _ {F O : Type 0} (P : Type 0) (target : Target F O) (limits : Limits) where
  -- Creations, updates that the schema lets pass, of rows that are stored, and deletions, in any order;
  -- those that raise leave the tables.
  pub data IsReachable : Db → Type 0 where
    start : IsReachable (record { queries = []; charts = [] })
    created :
        (db : Db) (duration_ms : ℕ) (new_id connection_id : String) (payload : SavedQueryCreate)
        (owner_id : Option String) (q : StoredQuery) (db' : Db)
        → IsReachable db
        → create_query target limits duration_ms db new_id connection_id payload owner_id
          ≡ ok (q, db')
        → IsReachable db'
    updated :
        (db : Db) (duration_ms : ℕ) (caches : Caches P) (query : StoredQuery)
        (payload : SavedQueryUpdate) (q : StoredQuery) (db' : Db) (caches' : Caches P)
        → IsReachable db
        → is_empty payload.sql_text ≡ false
        → get query.id db.queries ≡ some query
        → update_query target limits duration_ms db caches query payload ≡ ok (q, db', caches')
        → IsReachable db'
    deleted :
        (db : Db) (caches : Caches P) (query : StoredQuery)
        → IsReachable db
        → IsReachable (delete_query db caches query).0

  -- Where the default row limit is within the maximum, in every table that creations, updates and
  -- deletions produce, an id has one row, an owner has no name twice on a connection, the guard accepts
  -- the text of every query, and its row limit is from 1 to the maximum.
  pub IsReachable-IsWellFormed :
      (db : Db)
      → has_limit target limits limits.default_row_limit ≡ true
      → IsReachable db
      → IsWellFormed target limits db.queries
  IsReachable-IsWellFormed db d start = record {
    distinct = tt;
    is_keyed = refl;
    is_unique = refl;
    tested = refl;
  }
  IsReachable-IsWellFormed db d (created old ms new_id connection_id payload owner q db' r h) =
      create_query-IsWellFormed target limits ms old new_id connection_id payload owner q db' d
        (IsReachable-IsWellFormed old d r) h
  IsReachable-IsWellFormed db d (updated old ms caches query payload q db' caches' r e g h) =
      update_query-IsWellFormed target limits ms old caches query payload q db' caches' d e g
        (IsReachable-IsWellFormed old d r) h
  IsReachable-IsWellFormed db d (deleted old caches query r) =
      delete_query-IsWellFormed target limits old caches query (IsReachable-IsWellFormed old d r)
