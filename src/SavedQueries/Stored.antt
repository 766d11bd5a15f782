-- ===== src/SavedQueries/Stored.antt =====
-- What holds of every stored query, whatever was created, updated and deleted before.
use fraud_analyzer_engine.Prelude.{
  ℕ, ◌≡◌, refl, sym, ap, String, Bool, true, false, ◌&&◌, Option, none, some, arith, leb, ◌==◌,
  texts, inl, inr, Bool-cases, Option-cases,
}
use fraud_analyzer_engine.Prelude.Outcome.{ok, is_ok, Outcome-cases}
use fraud_analyzer_engine.Dict
use fraud_analyzer_engine.Dict.{Dict, get, set, remove, IsDistinct}
use fraud_analyzer_engine.Matching.{ℤ}
use fraud_analyzer_engine.Execution.{Limits, Target, resolve_row_limit, execute_sql, dry_run}
use fraud_analyzer_engine.ResultCache.{Caches}
use fraud_analyzer_engine.SavedQueries.Defs.{StoredQuery, Db}
use fraud_analyzer_engine.SavedQueries.Service.{
  SavedQueryCreate, SavedQueryUpdate, Change, unset, null, value, name_taken, added, new_query,
  saved, create_query, changed, changed_limit, tested_text, update_query, delete_query, required,
}
use fraud_analyzer_engine.SavedQueries.Visible.{keyed}
use fraud_analyzer_engine.SavedQueries.Names.{
  unique, set-unique, set-keyed, remove-unique, remove-keyed, every, every-set, every-remove,
  every-get,
}

added_taken :
    (db : Db) (query q : StoredQuery) (db' : Db)
    → name_taken query db.queries ≡ true
    → ¬ (added db query ≡ ok (q, db'))
unfolding added
added_taken db query q db' taken h = ground (arith, taken)

added_free :
    (db : Db) (query q : StoredQuery) (db' : Db)
    → name_taken query db.queries ≡ false
    → added db query ≡ ok (q, db')
    → db'.queries ≡ set query.id query db.queries
unfolding added
added_free db query q db' free h = ground (arith, free)

saved_ok :
    {P : Type 0} (db : Db) (caches : Caches P) (payload : SavedQueryUpdate) (query q : StoredQuery)
    (db' : Db) (caches' : Caches P)
    → saved db caches payload query ≡ ok (q, db', caches')
    → (name_taken query db.queries ≡ false) × (db'.queries ≡ set query.id query db.queries)
unfolding saved
saved_ok db caches payload query q db' caches' h = (ground arith, ground arith)

-- a text of no characters, which the request's schema refuses
abbrev pub is_empty : Change String → Bool
is_empty (value sql) = sql == ""
is_empty _ = false

both : {a b : Bool} → a ≡ true → b ≡ true → (a && b) ≡ true
both p q = ground arith

both_left : (a b : Bool) → (a && b) ≡ true → a ≡ true
both_left a b h = ground arith

both_right : (a b : Bool) → (a && b) ≡ true → b ≡ true
both_right a b h = ground arith

module _ {F O : Type 0} (target : Target F O) (limits : Limits) where
  abbrev pub has_limit : ℕ → Bool
  has_limit n = leb 1 n && leb n limits.max_row_limit

  -- The guard accepts its text, and its row limit is from 1 to the maximum.
  abbrev pub is_tested : StoredQuery → Bool
  is_tested q = is_ok (target.validate_select q.sql_text) && has_limit q.row_limit

  -- One row to an id, under its id; one row to a name of an owner on a connection; each row tested.
  pub record IsWellFormed (queries : Dict StoredQuery) : Type 0 where
    pub distinct : IsDistinct queries
    pub is_keyed : keyed queries ≡ true
    pub is_unique : unique queries ≡ true
    pub tested : every is_tested queries ≡ true

  dry_run-none :
      (sql : String) (duration_ms : ℕ)
      → dry_run target limits sql duration_ms ≡ none
      → is_ok (target.validate_select sql) ≡ true
  unfolding dry_run execute_sql
  dry_run-none sql duration_ms h = elim (Outcome-cases (target.validate_select sql)) [
    | inl (out, e) ↦ rw e refl
    | inr (error, e) ↦ ground (arith, e)
  ]

  resolve_row_limit-has_limit :
      (requested : Option ℤ) (n : ℕ)
      → has_limit limits.default_row_limit ≡ true
      → resolve_row_limit limits requested ≡ ok n
      → has_limit n ≡ true
  unfolding resolve_row_limit
  resolve_row_limit-has_limit none n d h = ground arith
  resolve_row_limit-has_limit (some (ℤ.negsuc k)) n d h = ground arith
  resolve_row_limit-has_limit (some (ℤ.pos k)) n d h = ground arith

  set-IsWellFormed :
      (q : StoredQuery) (queries : Dict StoredQuery)
      → IsWellFormed queries
      → name_taken q queries ≡ false
      → is_tested q ≡ true
      → IsWellFormed (set q.id q queries)
  set-IsWellFormed q queries w n t = record {
    distinct = Dict.set-IsDistinct q.id q queries w.distinct;
    is_keyed = set-keyed q queries w.is_keyed;
    is_unique = set-unique q queries w.is_keyed w.distinct w.is_unique n;
    tested = every-set is_tested q.id q queries w.tested t;
  }

  added-IsWellFormed :
      (db : Db) (query q : StoredQuery) (db' : Db)
      → IsWellFormed db.queries
      → is_tested query ≡ true
      → added db query ≡ ok (q, db')
      → IsWellFormed db'.queries
  added-IsWellFormed db query q db' w t h = elim (Bool-cases (name_taken query db.queries)) [
    | inl taken ↦ absurd (added_taken db query q db' taken h)
    | inr free ↦ rw (added_free db query q db' free h) (set-IsWellFormed query db.queries w free t)
  ]

  pub create_query-IsWellFormed :
      (duration_ms : ℕ) (db : Db) (new_id connection_id : String) (payload : SavedQueryCreate)
      (owner_id : Option String) (q : StoredQuery) (db' : Db)
      → has_limit limits.default_row_limit ≡ true
      → IsWellFormed db.queries
      → create_query target limits duration_ms db new_id connection_id payload owner_id
        ≡ ok (q, db')
      → IsWellFormed db'.queries
  unfolding create_query new_query
  create_query-IsWellFormed duration_ms db new_id connection_id payload owner_id q db' d w h =
      elim (Outcome-cases (resolve_row_limit limits payload.row_limit)) [
        | inr (e, r) ↦ absurd (ground (arith, r))
        | inl (n, r) ↦ elim (Option-cases (dry_run target limits payload.sql_text duration_ms)) [
          | inr (e, t) ↦ absurd (ground (arith, r, t))
          | inl t ↦
              added-IsWellFormed db (new_query new_id connection_id payload owner_id n) q db' w
                (ground (
                  arith,
                  dry_run-none payload.sql_text duration_ms t,
                  resolve_row_limit-has_limit payload.row_limit n d r,
                ))
                (rw (sym h, r, t) refl)
        ]
      ]

  saved-IsWellFormed :
      {P : Type 0} (db : Db) (caches : Caches P) (payload : SavedQueryUpdate)
      (query q : StoredQuery) (db' : Db) (caches' : Caches P)
      → IsWellFormed db.queries
      → is_tested query ≡ true
      → saved db caches payload query ≡ ok (q, db', caches')
      → IsWellFormed db'.queries
  saved-IsWellFormed db caches payload query q db' caches' w t h =
      let (free, e) = saved_ok db caches payload query q db' caches' h in
      rw e (set-IsWellFormed query db.queries w free t)

  tested_text-is_ok :
      (duration_ms : ℕ) (change : Change String) (old : String)
      → is_empty change ≡ false
      → is_ok (target.validate_select old) ≡ true
      → is_ok (tested_text target limits duration_ms change) ≡ true
      → is_ok (target.validate_select (required change old)) ≡ true
  unfolding tested_text
  tested_text-is_ok duration_ms unset old e o t = o
  tested_text-is_ok duration_ms null old e o t = o
  tested_text-is_ok duration_ms (value sql) old e o t =
      elim (Option-cases (dry_run target limits sql duration_ms)) [
        | inl d ↦ dry_run-none sql duration_ms d
        | inr (error, d) ↦ absurd (ground (arith, e, d))
      ]

  changed_limit-has_limit :
      (duration_ms : ℕ) (change : Change ℤ) (query : StoredQuery) (n : ℕ)
      → has_limit limits.default_row_limit ≡ true
      → has_limit query.row_limit ≡ true
      → changed_limit target limits duration_ms change query ≡ ok n
      → has_limit n ≡ true
  unfolding changed_limit
  changed_limit-has_limit duration_ms unset query n d l h = ground arith
  changed_limit-has_limit duration_ms null query n d l h = ground arith
  changed_limit-has_limit duration_ms (value z) query n d l h =
      elim (Outcome-cases (resolve_row_limit limits (some z))) [
        | inl (m, e) ↦ ground (arith, e, resolve_row_limit-has_limit (some z) m d e)
        | inr (error, e) ↦ absurd (ground (arith, e))
      ]

  pub update_query-IsWellFormed :
      {P : Type 0} (duration_ms : ℕ) (db : Db) (caches : Caches P) (query : StoredQuery)
      (payload : SavedQueryUpdate) (q : StoredQuery) (db' : Db) (caches' : Caches P)
      → has_limit limits.default_row_limit ≡ true
      → is_empty payload.sql_text ≡ false
      → get query.id db.queries ≡ some query
      → IsWellFormed db.queries
      → update_query target limits duration_ms db caches query payload ≡ ok (q, db', caches')
      → IsWellFormed db'.queries
  unfolding update_query changed
  update_query-IsWellFormed duration_ms db caches query payload q db' caches' d e g w h =
      let old = every-get is_tested query.id query db.queries w.tested g in
      elim (Outcome-cases (changed_limit target limits duration_ms payload.row_limit query)) [
        | inr (error, r) ↦ absurd (ground (arith, r))
        | inl (n, r) ↦
            elim (Outcome-cases (tested_text target limits duration_ms payload.sql_text)) [
              | inr (error, t) ↦ absurd (ground (arith, r, t))
              | inl (u, t) ↦
                  saved-IsWellFormed db caches payload (changed payload n query) q db' caches' w
                    (both
                      (tested_text-is_ok duration_ms payload.sql_text query.sql_text e
                        (both_left (is_ok (target.validate_select query.sql_text))
                          (has_limit query.row_limit) old)
                        (ap is_ok t))
                      (changed_limit-has_limit duration_ms payload.row_limit query n d
                        (both_right (is_ok (target.validate_select query.sql_text))
                          (has_limit query.row_limit) old)
                        r))
                    (rw (sym h, r, t) refl)
            ]
      ]

  pub delete_query-IsWellFormed :
      {P : Type 0} (db : Db) (caches : Caches P) (query : StoredQuery)
      → IsWellFormed db.queries
      → IsWellFormed (delete_query db caches query).0.queries
  unfolding delete_query
  delete_query-IsWellFormed db caches query w = record {
    distinct = Dict.remove-IsDistinct query.id db.queries w.distinct;
    is_keyed = remove-keyed query.id db.queries w.is_keyed;
    is_unique = remove-unique query.id db.queries w.is_unique;
    tested = every-remove is_tested query.id db.queries w.tested;
  }
