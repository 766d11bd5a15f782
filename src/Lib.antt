-- ===== src/Lib.antt =====
-- A model of Switchboard's analyzer engine (services/analyzer/app), a FastAPI service that stores
-- queries against customers' databases, runs them, flags rows of their results by rules, draws
-- charts of them, and serves the answers to signed-in analysts.
--
-- How the parts meet. A request passes the rate limiter, then the session check, then a service. A
-- service that runs a query stores the payload in the result cache; answers rendered of it are kept
-- in the rendered cache, and what changes a query drops it from both. The flag rules read the rows of
-- a result, and the named lists that a rule compares against are sets of keys. A query is run by a
-- poll that finds nothing cached, by the refresher behind a poll that finds a stale result, by the
-- scheduler, and by the refresh of a connection; each run is logged, cached and synced with the stored
-- findings, of which each reader dismisses their own, and the log is pruned at the start. A query's text
-- passes the SQL guard when it is saved, in a dry run, and whenever it is run. A chart of a query is
-- published by an administrator, or by one's approval of an analyst's request. Signing in, sessions
-- and accounts are one database, which administration and authentication share.
--
-- Files, with the code they model (paths from services/analyzer/app):
--   Prelude, Dict     tests, lists, texts and errors that the others share; Python's dict and
--                     OrderedDict as a list of entries in insertion order
--   Clock             clock.py: elapsed_ms over a monotonic and a wall clock
--   Lru               the part that both caches have: entries by last use, and a byte total
--   RenderedCache     features/queries/rendered_cache.py: get, store, get_or_render,
--                     invalidate_query, clear
--   ResultCache       features/queries/result_cache.py: get, get_stale, set, patch_charts, invalidate,
--                     clear
--   Matching          features/lists/matching.py: as_number, as_bool, list_key, members_from_items,
--                     is_member
--   FlagRules         features/flag_rules/engine.py and policy/flag_rules.py: evaluate_condition in
--                     Defs, evaluate in Evaluate
--   ItemLists         features/lists/service.py: create_list, update_list, delete_list (Service),
--                     and _clean_items with the cached_members of lists/matching.py (Defs)
--   Findings          features/flag_rules/flagged_rows.py: sync, delete_rows (Defs); dismissals.py:
--                     dismiss, restore, apply_dismissals (Dismissals)
--   Queries           what features/queries/ shares: a query, the payload of a run, the log, and the
--                     storing of a run (Store)
--   Execution         features/queries/execution.py: to_jsonable (Json), execute_sql (Defs),
--                     evaluate_flags (Flagging), build_chart (Charts)
--   SqlGuard          security/sql_guard.py and policy/sql_allowlist.py (Policy): the checks of the
--                     text (Defs), of its tokens (Checks), their order (Validate), the memo of
--                     validate_select (Memo), and the guard before execute_sql (Executed)
--   SavedQueries      features/queries/service.py: the reads (Defs) and the writes (Service);
--                     features/flag_rules/service.py: flagged_for_connection (Refresh)
--   Retention         features/queries/service.py: prune_execution_logs, _trim_per_query
--   Scheduler         features/queries/scheduler.py: run_due_once, _reschedule
--   Refresher         features/queries/refresher.py: request_refresh, _refresh, _hold_off
--   Polling           features/queries/polling.py: poll_one, execute_and_log
--   Accounts          features/users/models.py and enums.py: users and roles
--   Publishing        features/charts/service.py: publish, cancel_request, approve, reject,
--                     unpublish, get_published
--   Identity          features/auth/sessions.py (SessionDefs), features/auth/service.py, its router
--                     and security/passwords.py (AuthDefs), features/users/service.py (AdminDefs)
--   RateLimit         ratelimit.py: the windows, client_key, _is_execution and dispatch
--   Tests             every part on concrete inputs
--
-- State and operations. Each part's state is a record (a cache, a database of the tables it reads and
-- writes, a table of counts), and each function of the code a function that returns the answer with
-- the next state; what the code raises is an Outcome. Locks make the caches' operations atomic, so a
-- sequence of calls is an order of them. The publishing endpoints read a chart and write it later by
-- one conditional UPDATE: their two halves are separate functions, and a sequence of writes, each with
-- a chart read at any time, is any interleaving of the transactions. A history (Publishing/Histories)
-- has the reads too: each request passes its reading half on the database as it is then, and is in
-- flight until it is written. A transaction that raises has written nothing.
--
-- Parameters, for what is not in the repository: JSON and gzip encoding, the digest and password
-- hashes, random tokens, Unicode case and white space, decimals and the texts of numbers, and the
-- parser sqlparse, of which a statement is its text, its tokens and its type. The clock is an argument
-- of each operation. Numbers of bytes, moments and counts are natural numbers, which
-- Python's integers do not bound; every loop is a recursion on a list, so there is no fuel. The
-- constants are the code's: 256 entries to a cache, 5 failures and 15 minutes to a lock, 72 hours to a
-- temporary password, 60 seconds and 10,000 keys to a window of the rate limiter.
--
-- Not modelled: logging and metrics, the time that a refusal takes, the texts of messages, the drivers
-- and encryption, the routers and schemas, the migrations; nor, so far, the storage of rules, the
-- replacing of charts, dashboards, and the paging of the queue of findings. What a run of a query on
-- its target gives is an argument of the scheduler, the refresher, the refresh of a connection and the
-- poll; the scheduler and the refresher are models of one process, and of the writes of lists and of
-- saved queries one transaction is modelled at a time.
pub mod Prelude
pub mod Dict
pub mod Lru
pub mod Clock
pub mod Matching
pub mod FlagRules
pub mod ItemLists
pub mod Findings
pub mod Queries
pub mod Execution
pub mod Scheduler
pub mod Refresher
pub mod Polling
pub mod RenderedCache
pub mod ResultCache
pub mod Accounts
pub mod Publishing
pub mod RateLimit
pub mod Identity
pub mod SqlGuard
pub mod Retention
pub mod SavedQueries
pub mod Tests
