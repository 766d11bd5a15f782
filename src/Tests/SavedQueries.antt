-- ===== src/Tests/SavedQueries.antt =====
-- services/analyzer/app/features/queries/service.py and the refresh of a connection on three queries.
use fraud_analyzer_engine.Prelude.{
  ℕ, ◌≤◌, String, ◌≡◌, refl, true, false, Option, none, some, [], ◌∷◌, length, texts, numbers,
}
use fraud_analyzer_engine.Prelude.Outcome.{ok, raise, is_ok}
use fraud_analyzer_engine.Dict
use fraud_analyzer_engine.Dict.{Dict}
use fraud_analyzer_engine.Matching.{ℤ}
use fraud_analyzer_engine.Lru.{empty}
use fraud_analyzer_engine.ResultCache.{Caches}
use fraud_analyzer_engine.RenderedCache
use fraud_analyzer_engine.Execution.{Limits, resolve_row_limit, dry_run}
use fraud_analyzer_engine.Execution.Charts.{ChartType}
use fraud_analyzer_engine.SavedQueries.Defs.{
  StoredQuery, Db, duplicate_name, get_owned, get_viewable, list_queries, list_visible_queries,
  list_queries_by_ids,
}
use fraud_analyzer_engine.SavedQueries.Service.{
  SavedQueryCreate, SavedQueryUpdate, unset, null, create_query, update_query, new_query,
}
use fraud_analyzer_engine.SavedQueries.Visible.{
  hide, owned_of, reads-hide, list_queries_by_ids-owned_of,
}
use fraud_analyzer_engine.SavedQueries.Stored.{IsWellFormed}
use fraud_analyzer_engine.SavedQueries.Histories.{IsReachable, IsReachable-IsWellFormed}
use fraud_analyzer_engine.SavedQueries.Refresh.{flagged_for_connection}
use fraud_analyzer_engine.SavedQueries.Selected.{all_ids}
use fraud_analyzer_engine.SavedQueries.Refreshed.{section_ids, flagged_for_connection-get_owned}
use fraud_analyzer_engine.SavedQueries.Fanout.{flagged_for_connection-length}
use fraud_analyzer_engine.Tests.Identity.{ann}
use fraud_analyzer_engine.Tests.Execution.{target}
use fraud_analyzer_engine.Tests.FlagRules.{large}
use fraud_analyzer_engine.Tests.Queries.{program, failure, no_stores}

abbrev limits : Limits
limits = record { default_row_limit = 5; max_row_limit = 10; max_result_bytes = 100 }

abbrev payload : SavedQueryCreate
payload = record {
  name = "Transfers";
  description = none;
  sql_text = "SELECT 1";
  table_hint = none;
  row_limit = some (ℤ.pos 7);
  poll_interval_ms = none;
}

abbrev row : String → Option String → StoredQuery
row id owner = record (new_query id "c" payload owner 7) { flag_rules = large ∷ [] }

-- ann's, and one of somebody else
abbrev db : Db
db = record {
  queries = ("q", row "q" (some "ann")) ∷ ("p", row "p" (some "bob")) ∷ [];
  charts =
      record {
        query_id = "p";
        name = "Table";
        position = 0;
        chart_type = ChartType.table;
        is_public = true;
      }
      ∷ [];
}

batch : list_queries_by_ids db ("p" ∷ "x" ∷ "q" ∷ []) ann ≡ row "q" (some "ann") ∷ []
unfolding list_queries_by_ids Dict.get Dict.keep_where new_query
batch = refl

list_queries_by_ids-owned_of_example :
    list_queries_by_ids db ("p" ∷ "x" ∷ "q" ∷ []) ann ≡ owned_of db ("p" ∷ "x" ∷ "q" ∷ []) ann
unfolding Dict.get new_query
list_queries_by_ids-owned_of_example =
    list_queries_by_ids-owned_of db ("p" ∷ "x" ∷ "q" ∷ []) ann (refl, (refl, tt)) refl

reads-hide_example :
    (get_owned (hide ann db) "p" ann ≡ get_owned db "p" ann)
    × (list_queries (hide ann db) "c" ann ≡ list_queries db "c" ann)
    × (list_visible_queries (hide ann db) ann ≡ list_visible_queries db ann)
    × (list_queries_by_ids (hide ann db) ("p" ∷ []) ann ≡ list_queries_by_ids db ("p" ∷ []) ann)
unfolding Dict.get new_query
reads-hide_example = reads-hide db ann "p" "c" ("p" ∷ []) (refl, (refl, tt)) refl

abbrev no_rows : Db
no_rows = record { queries = []; charts = [] }

abbrev first_query : StoredQuery
first_query = new_query "q" "c" payload (some "ann") 7

abbrev with_first : Db
with_first = record {
  queries = ("q", first_query) ∷ [];
  charts =
      record {
        query_id = "q";
        name = "Transfers";
        position = 0;
        chart_type = ChartType.table;
        is_public = false;
      }
      ∷ [];
}

first_created :
    create_query target limits 3 no_rows "q" "c" payload (some "ann") ≡ ok (first_query, with_first)
unfolding create_query resolve_row_limit dry_run Dict.set
first_created = refl

with_first-IsReachable : IsReachable ℕ target limits with_first
with_first-IsReachable =
    IsReachable.created no_rows 3 "q" "c" payload (some "ann") first_query with_first
      IsReachable.start first_created

IsReachable-IsWellFormed_example : IsWellFormed target limits with_first.queries
IsReachable-IsWellFormed_example =
    IsReachable-IsWellFormed ℕ target limits with_first refl with_first-IsReachable

second_of_the_name :
    create_query target limits 3 with_first "r" "c" payload (some "ann") ≡ raise duplicate_name
unfolding create_query resolve_row_limit dry_run
second_of_the_name = refl

abbrev to_null : SavedQueryUpdate
to_null = record {
  name = unset;
  description = unset;
  sql_text = null;
  table_hint = unset;
  row_limit = unset;
  poll_interval_ms = unset;
}

abbrev caches : Caches ℕ
caches = record { results = empty; rendered = RenderedCache.clear }

-- A `null` for the text is reported as a name that is taken.
null_text :
    update_query target limits 3 with_first caches first_query to_null ≡ raise duplicate_name
unfolding update_query
null_text = refl

flagged_for_connection-get_owned_example :
    (all_ids
        (λ (id : String). is_ok (get_owned db id ann))
        (flagged_for_connection program "DATABASE_ERROR" ann 1 db "c" true
          (λ id. failure)
          no_stores).executed
      ≡ true)
    × (all_ids
          (λ (id : String). is_ok (get_viewable db id ann))
          (section_ids
            (flagged_for_connection program "DATABASE_ERROR" ann 1 db "c" true
              (λ id. failure)
              no_stores).sections)
        ≡ true)
unfolding Dict.get new_query
flagged_for_connection-get_owned_example =
    flagged_for_connection-get_owned program "DATABASE_ERROR" ann 1 db "c" true (λ id. failure)
      no_stores (refl, (refl, tt)) refl

flagged_for_connection-length_example :
    length
      (flagged_for_connection program "DATABASE_ERROR" ann 1 db "c" true
        (λ id. failure)
        no_stores).executed
    ≤ 1
unfolding Dict.get new_query
flagged_for_connection-length_example =
    flagged_for_connection-length program "DATABASE_ERROR" ann 1 db "c" true (λ id. failure)
      no_stores (refl, (refl, tt)) refl

one_section_is_run :
    let r =
      flagged_for_connection program "DATABASE_ERROR" ann 1 db "c" true (λ id. failure) no_stores in
    (r.executed ≡ "q" ∷ []) × (section_ids r.sections ≡ "q" ∷ "p" ∷ [])
unfolding flagged_for_connection Dict.get new_query
one_section_is_run = (refl, refl)
