-- ===== src/SavedQueries/Defs.antt =====
-- The tables of saved queries and of their charts, and the reads. The queries stand in the order of
-- their creation, which the listings keep.
use fraud_analyzer_engine.Prelude.{
  ℕ, String, Bool, true, false, not, ◌&&◌, ◌||◌, Option, none, some, List, [], ◌∷◌, ◌==◌, texts,
  numbers, if◌then◌else◌, any, same_option,
}
use fraud_analyzer_engine.Prelude.Outcome.{Outcome, ok, raise}
use fraud_analyzer_engine.Dict
use fraud_analyzer_engine.Dict.{Dict}
use fraud_analyzer_engine.Accounts.{User, is_admin}
use fraud_analyzer_engine.FlagRules.{RuleSpec}
use fraud_analyzer_engine.Execution.{ExecutionError}
use fraud_analyzer_engine.Execution.Charts.{ChartType}

pub record StoredQuery : Type 0 where
  pub id : String
  pub connection_id : String
  pub owner_id : Option String
  pub name : String
  pub description : Option String
  pub sql_text : String
  pub table_hint : Option String
  pub row_limit : ℕ
  pub poll_interval_ms : Option ℕ
  pub flag_rules : List RuleSpec

-- what is read here of a `QueryChart`
pub record ChartRow : Type 0 where
  pub query_id : String
  pub name : String
  pub position : ℕ
  pub chart_type : ChartType
  pub is_public : Bool

pub record Db : Type 0 where
  pub queries : Dict StoredQuery
  pub charts : List ChartRow

pub data Error : Type 0 where
  query_not_found : Error
  duplicate_name : Error
  rejected : ExecutionError → Error

abbrev pub is_owner : User → StoredQuery → Bool
is_owner user q = same_option q.owner_id (some user.id)

-- the clause of `visible_to`, at a row
unfoldable pub visible_to : User → StoredQuery → Bool
visible_to user q = if is_admin user then true else is_owner user q

unfoldable pub is_published : Db → String → Bool
is_published db query_id = any (λ (c : ChartRow). c.query_id == query_id && c.is_public) db.charts

-- the clause of `alert_visible_to`, at a row
unfoldable pub alert_visible_to : Db → User → StoredQuery → Bool
unfolding is_published
alert_visible_to db user q = if is_admin user then true else is_owner user q || is_published db q.id

unfoldable pub get_query : Db → String → Outcome Error StoredQuery
get_query db query_id = elim (Dict.get query_id db.queries) [
  | none ↦ raise query_not_found
  | some query ↦ ok query
]

unfoldable pub get_viewable : Db → String → User → Outcome Error StoredQuery
unfolding is_published
get_viewable db query_id user = elim (Dict.get query_id db.queries) [
  | none ↦ raise query_not_found
  | some query ↦
      if is_admin user || is_owner user query
      then ok query
      else if not (is_published db query_id)
      then raise query_not_found
      else ok query
]

unfoldable pub get_owned : Db → String → User → Outcome Error StoredQuery
get_owned db query_id user = elim (Dict.get query_id db.queries) [
  | none ↦ raise query_not_found
  | some query ↦
      if not (is_admin user) && not (is_owner user query) then raise query_not_found else ok query
]

-- `list(session.scalars(select(SavedQuery).where(test)))`
unfoldable pub select_where : (StoredQuery → Bool) → Dict StoredQuery → List StoredQuery
select_where test [] = []
select_where test ((k, q) ∷ queries) =
    if test q then q ∷ select_where test queries else select_where test queries

unfoldable pub list_queries : Db → String → User → List StoredQuery
unfolding select_where visible_to
list_queries db connection_id user =
    select_where (λ (q : StoredQuery). q.connection_id == connection_id && visible_to user q)
      db.queries

unfoldable pub list_visible_queries : Db → User → List StoredQuery
unfolding select_where visible_to
list_visible_queries db user = select_where (visible_to user) db.queries

-- `[found[qid] for qid in query_ids if qid in found]`
unfoldable pub found_in : Dict StoredQuery → List String → List StoredQuery
found_in found [] = []
found_in found (id ∷ ids) =
    let rest = found_in found ids in elim (Dict.get id found) [ none ↦ rest | some q ↦ q ∷ rest ]

unfoldable pub list_queries_by_ids : Db → List String → User → List StoredQuery
unfolding found_in visible_to
list_queries_by_ids db [] user = []
list_queries_by_ids db query_ids user =
    found_in
      (Dict.keep_where
        (λ (q : StoredQuery). any (λ (id : String). id == q.id) query_ids && visible_to user q)
        db.queries)
      query_ids

abbrev pub has_rules : List RuleSpec → Bool
has_rules [] = false
has_rules (rule ∷ rules) = true

-- the queries of a connection that define rules, and whose alerts the caller may see
unfoldable pub queries_with_rules : Db → String → User → List StoredQuery
unfolding select_where alert_visible_to
queries_with_rules db connection_id user =
    select_where
      (λ (q : StoredQuery).
        q.connection_id == connection_id && alert_visible_to db user q && has_rules q.flag_rules)
      db.queries
