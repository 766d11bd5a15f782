-- ===== src/SavedQueries/Service.antt =====
-- The writes: each returns the tables and the caches, or raises and leaves both.
use Prim.Native.String as Str
use fraud_analyzer_engine.Prelude.{
  zero, suc, ℕ, String, Bool, true, false, not, ◌&&◌, ◌||◌, Option, none, some, List, [], ◌∷◌, ◌++◌,
  ◌==◌, texts, if◌then◌else◌,
}
use fraud_analyzer_engine.Prelude.Outcome.{Outcome, ok, raise, ◌>>=◌}
use fraud_analyzer_engine.Dict
use fraud_analyzer_engine.Dict.{Dict}
use fraud_analyzer_engine.Matching.{ℤ}
use fraud_analyzer_engine.Execution.{Limits, ExecutionError, Target, resolve_row_limit, dry_run}
use fraud_analyzer_engine.Execution.Charts.{ChartType}
use fraud_analyzer_engine.ResultCache
use fraud_analyzer_engine.ResultCache.{Caches}
use fraud_analyzer_engine.SavedQueries.Defs.{
  StoredQuery, ChartRow, Db, Error, duplicate_name, rejected,
}

pub record SavedQueryCreate : Type 0 where
  pub name : String
  pub description : Option String
  pub sql_text : String
  pub table_hint : Option String
  pub row_limit : Option ℤ
  pub poll_interval_ms : Option ℕ

-- A field of a partial update: left out, `null`, or a value.
pub data Change (A : Type 0) : Type 0 where
  unset null : Change A
  value : A → Change A

pub record SavedQueryUpdate : Type 0 where
  pub name : Change String
  pub description : Change String
  pub sql_text : Change String
  pub table_hint : Change String
  pub row_limit : Change ℤ
  pub poll_interval_ms : Change ℕ

-- `setattr` of a column that may be null, and of one that may not
abbrev pub optional : {A : Type 0} → Change A → Option A → Option A
optional unset old = old
optional null old = none
optional (value a) old = some a

abbrev pub required : {A : Type 0} → Change A → A → A
required unset old = old
required null old = old
required (value a) old = a

abbrev pub is_null : {A : Type 0} → Change A → Bool
is_null null = true
is_null _ = false

abbrev pub as_rejected : {A : Type 0} → Outcome ExecutionError A → Outcome Error A
as_rejected (ok a) = ok a
as_rejected (raise e) = raise (rejected e)

abbrev pub passed : Option ExecutionError → Outcome Error (Unit {0})
passed none = ok tt
passed (some e) = raise (rejected e)

-- `uq_saved_queries_conn_owner_name`; rows without an owner do not collide
unfoldable pub collides : StoredQuery → StoredQuery → Bool
collides q r = q.connection_id == r.connection_id && q.name == r.name && elim q.owner_id [
  | none ↦ false
  | some owner ↦ elim r.owner_id [ none ↦ false | some other ↦ owner == other ]
]

-- whether another row of the table has the connection, the owner and the name of this one
unfoldable pub name_taken : StoredQuery → Dict StoredQuery → Bool
unfolding collides
name_taken q [] = false
name_taken q ((k, r) ∷ queries) = (not (r.id == q.id) && collides q r) || name_taken q queries

-- `s[:n]`
abbrev pub take_chars : ℕ → String → String
take_chars zero s = ""
take_chars (suc n) Str.[] = ""
take_chars (suc n) (Str.◌∷◌ c s) = Str.◌∷◌ c (take_chars n s)

unfoldable pub changed : SavedQueryUpdate → ℕ → StoredQuery → StoredQuery
changed payload row_limit query = record query {
  name = required payload.name query.name;
  description = optional payload.description query.description;
  sql_text = required payload.sql_text query.sql_text;
  table_hint = optional payload.table_hint query.table_hint;
  row_limit = row_limit;
  poll_interval_ms = optional payload.poll_interval_ms query.poll_interval_ms;
}

-- `session.add` of a query with its one chart, and the commit
unfoldable pub added : Db → StoredQuery → Outcome Error (StoredQuery × Db)
unfolding name_taken
added db query =
    if name_taken query db.queries
    then raise duplicate_name
    else ok (
      query,
      record {
        queries = Dict.set query.id query db.queries;
        charts =
            db.charts
            ++ record {
              query_id = query.id;
              name = take_chars 200 query.name;
              position = 0;
              chart_type = ChartType.table;
              is_public = false;
            }
              ∷ [];
      },
    )

-- the row that is added
unfoldable pub new_query : String → String → SavedQueryCreate → Option String → ℕ → StoredQuery
new_query new_id connection_id payload owner_id row_limit = record {
  id = new_id;
  connection_id = connection_id;
  owner_id = owner_id;
  name = payload.name;
  description = payload.description;
  sql_text = payload.sql_text;
  table_hint = payload.table_hint;
  row_limit = row_limit;
  poll_interval_ms = payload.poll_interval_ms;
  flag_rules = [];
}

-- The commit of an update fails on a name that is taken, and on a `null` where the column forbids
-- one. The cached results of the query go.
unfoldable pub saved :
    {P : Type 0}
    → Db
    → Caches P
    → SavedQueryUpdate
    → StoredQuery
    → Outcome Error (StoredQuery × Db × Caches P)
unfolding name_taken
saved db caches payload query =
    if is_null payload.name
      || is_null payload.sql_text
      || is_null payload.row_limit
      || name_taken query db.queries
    then raise duplicate_name
    else ok (
      query,
      record db { queries = Dict.set query.id query db.queries },
      ResultCache.invalidate query.id caches,
    )

module _ {F O : Type 0} (target : Target F O) (limits : Limits) (duration_ms : ℕ) where
  unfoldable pub create_query :
      Db → String → String → SavedQueryCreate → Option String → Outcome Error (StoredQuery × Db)
  unfolding added new_query
  create_query db new_id connection_id payload owner_id =
      as_rejected (resolve_row_limit limits payload.row_limit) >>= λ row_limit.
      passed (dry_run target limits payload.sql_text duration_ms) >>= λ _.
      added db (new_query new_id connection_id payload owner_id row_limit)

  -- the row limit that the update sets
  unfoldable pub changed_limit : Change ℤ → StoredQuery → Outcome Error ℕ
  changed_limit unset query = ok query.row_limit
  changed_limit null query = ok query.row_limit
  changed_limit (value n) query = as_rejected (resolve_row_limit limits (some n))

  -- the dry run of a new text, unless it is empty
  unfoldable pub tested_text : Change String → Outcome Error (Unit {0})
  tested_text unset = ok tt
  tested_text null = ok tt
  tested_text (value sql) =
      if sql == "" then ok tt else passed (dry_run target limits sql duration_ms)

  unfoldable pub update_query :
      {P : Type 0}
      → Db
      → Caches P
      → StoredQuery
      → SavedQueryUpdate
      → Outcome Error (StoredQuery × Db × Caches P)
  unfolding changed_limit tested_text changed saved
  update_query db caches query payload = changed_limit payload.row_limit query >>= λ row_limit.
      tested_text payload.sql_text >>= λ _.
      saved db caches payload (changed payload row_limit query)

charts_without : String → List ChartRow → List ChartRow
charts_without query_id [] = []
charts_without query_id (c ∷ charts) =
    if c.query_id == query_id
    then charts_without query_id charts
    else c ∷ charts_without query_id charts

-- The charts of a query go with it.
unfoldable pub delete_query : {P : Type 0} → Db → Caches P → StoredQuery → Db × Caches P
unfolding charts_without
delete_query db caches query = (
  record { queries = Dict.remove query.id db.queries; charts = charts_without query.id db.charts },
  ResultCache.invalidate query.id caches,
)
