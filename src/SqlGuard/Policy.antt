-- ===== src/SqlGuard/Policy.antt =====
-- services/analyzer/app/policy/sql_allowlist.py: what the guard refuses. The order of a
-- `frozenset` is not kept; no use here depends on it.
use fraud_analyzer_engine.Prelude.{
  String, Bool, not, ◌&&◌, List, [], ◌∷◌, ◌++◌, ◌==◌, texts, any, all,
}
use fraud_analyzer_engine.Prelude.Text.{PyText}

pub record Policy : Type 0 where
  pub forbidden_keywords : List String
  pub forbidden_names : List String
  pub postgres_functions : List String
  pub mysql_functions : List String
  pub sqlite_functions : List String
  pub allowed_statement_types : List String
  pub forbidden_locking_words : List String

-- `word in words`
abbrev pub is_in : String → List String → Bool
is_in word words = any (λ w. w == word) words

unfoldable pub forbidden_functions : Policy → List String
forbidden_functions p = p.postgres_functions ++ (p.mysql_functions ++ p.sqlite_functions)

default_forbidden_keywords : List String
default_forbidden_keywords =
    "INSERT" ∷ "UPDATE" ∷ "DELETE" ∷ "DROP" ∷ "ALTER" ∷ "CREATE" ∷ "TRUNCATE" ∷ "GRANT" ∷ "REVOKE"
    ∷ "INTO" ∷ "ATTACH" ∷ "DETACH" ∷ "EXEC" ∷ "EXECUTE" ∷ "VACUUM" ∷ "REINDEX" ∷ "UPSERT" ∷ []

default_forbidden_names : List String
default_forbidden_names = "outfile" ∷ "dumpfile" ∷ "pragma" ∷ []

default_postgres_functions : List String
default_postgres_functions =
    "set_config" ∷ "pg_read_file" ∷ "pg_read_binary_file" ∷ "pg_ls_dir" ∷ "pg_stat_file"
    ∷ "pg_ls_logdir" ∷ "pg_ls_waldir" ∷ "pg_ls_tmpdir" ∷ "pg_ls_archive_statusdir" ∷ "pg_logdir_ls"
    ∷ "pg_sleep" ∷ "pg_sleep_for" ∷ "pg_sleep_until" ∷ "pg_advisory_lock" ∷ "pg_advisory_xact_lock"
    ∷ "lo_import" ∷ "lo_export" ∷ "lo_get" ∷ "lo_put" ∷ "lo_from_bytea" ∷ "lo_unlink" ∷ "lo_open"
    ∷ "lo_read" ∷ "lo_write" ∷ "loread" ∷ "lowrite" ∷ "dblink" ∷ "dblink_exec" ∷ "dblink_connect"
    ∷ "dblink_connect_u" ∷ "dblink_send_query" ∷ "dblink_fetch" ∷ "dblink_open" ∷ "dblink_close"
    ∷ "query_to_xml" ∷ "query_to_xmlschema" ∷ "query_to_xml_and_xmlschema" ∷ "nextval" ∷ "setval"
    ∷ "pg_terminate_backend" ∷ "pg_cancel_backend" ∷ "pg_reload_conf" ∷ "pg_rotate_logfile"
    ∷ "pg_promote" ∷ "pg_switch_wal" ∷ "pg_switch_xlog" ∷ "pg_create_restore_point"
    ∷ "pg_start_backup" ∷ "pg_stop_backup" ∷ "pg_backup_start" ∷ "pg_backup_stop"
    ∷ "pg_drop_replication_slot" ∷ "pg_create_physical_replication_slot"
    ∷ "pg_create_logical_replication_slot" ∷ "pg_stat_reset" ∷ "pg_stat_reset_shared" ∷ "pg_notify"
    ∷ []

default_mysql_functions : List String
default_mysql_functions =
    "load_file" ∷ "benchmark" ∷ "sleep" ∷ "get_lock" ∷ "release_lock" ∷ "release_all_locks"
    ∷ "master_pos_wait" ∷ "source_pos_wait" ∷ "sys_exec" ∷ "sys_eval" ∷ []

default_sqlite_functions : List String
default_sqlite_functions =
    "readfile" ∷ "writefile" ∷ "load_extension" ∷ "edit" ∷ "fts3_tokenizer" ∷ "zipfile"
    ∷ "sqlar_compress" ∷ "sqlar_uncompress" ∷ []

default_allowed_statement_types : List String
default_allowed_statement_types = "SELECT" ∷ []

default_forbidden_locking_words : List String
default_forbidden_locking_words = "SHARE" ∷ []

unfoldable pub sql_allowlist : Policy
unfolding default_forbidden_keywords default_forbidden_names default_postgres_functions
    default_mysql_functions default_sqlite_functions default_allowed_statement_types
    default_forbidden_locking_words
sql_allowlist = record {
  forbidden_keywords = default_forbidden_keywords;
  forbidden_names = default_forbidden_names;
  postgres_functions = default_postgres_functions;
  mysql_functions = default_mysql_functions;
  sqlite_functions = default_sqlite_functions;
  allowed_statement_types = default_allowed_statement_types;
  forbidden_locking_words = default_forbidden_locking_words;
}

-- whether the module loads: it raises on an entry in the other case or of white space
unfoldable pub validate_policy : PyText → Policy → Bool
unfolding forbidden_functions
validate_policy py p =
    all (λ word. word == py.upper word && not (py.strip word == ""))
      (p.forbidden_keywords ++ (p.forbidden_locking_words ++ p.allowed_statement_types))
    && all (λ name. name == py.lower name && not (py.strip name == ""))
        (p.forbidden_names ++ forbidden_functions p)
