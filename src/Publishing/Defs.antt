-- ===== src/Publishing/Defs.antt =====
-- Each transition reads a chart, decides, and writes by one conditional UPDATE. The two halves are
-- functions of their own, since another transaction can commit between them: the second takes the
-- chart that the first has read, and the database as it is by then. The fingerprint of a
-- definition is a parameter `digest`; a chart holds its definition (the query's SQL and limits, the
-- mapping, the rules) as a value of a parameter type.
use fraud_analyzer_engine.Prelude.{
  ℕ, String, Bool, true, false, not, ◌&&◌, Option, none, some, List, ◌∷◌, if◌then◌else◌, ◌==◌,
  texts, numbers, is_some, same_option,
}
use fraud_analyzer_engine.Prelude.Outcome.{Outcome, ok, raise, ◌>>=◌}
use fraud_analyzer_engine.Dict
use fraud_analyzer_engine.Dict.{Dict}
use fraud_analyzer_engine.Accounts.{User, is_admin}

pub data Error : Type 0 where
  query_not_found forbidden publish_not_pending definition_changed : Error

pub data AuditAction : Type 0 where
  chart_published chart_unpublished chart_publish_requested : AuditAction
  chart_publish_approved chart_publish_rejected chart_publish_cancelled : AuditAction

pub record AuditEntry : Type 0 where
  pub actor : String
  pub action : AuditAction
  pub target : String

pub record QueryChart (D : Type 0) : Type 0 where
  pub id : String
  pub query_id : String
  pub definition : D
  pub is_public : Bool
  pub published_by : Option String
  pub published_at : Option ℕ
  pub publish_requested_by : Option String
  pub publish_requested_at : Option ℕ
  pub publish_rejected_by : Option String
  pub publish_rejected_at : Option ℕ
  pub publish_rejected_reason : Option String

pub record SavedQuery : Type 0 where
  pub owner_id : Option String

-- The rows that the module reads and writes, the audit log, newest first, and the queries whose
-- cached result `redraw_cached` has been called for, newest first.
pub record Db (D : Type 0) : Type 0 where
  pub charts : Dict (QueryChart D)
  pub queries : Dict SavedQuery
  pub audit_log : List AuditEntry
  pub redrawn : List String

pub data Status : Type 0 where
  published pending private : Status

require_admin : User → Outcome Error (Unit {0})
require_admin user = if is_admin user then ok tt else raise forbidden

module _ {D : Type 0} where
  unfoldable pub publish_status : QueryChart D → Status
  publish_status c =
      if c.is_public then published else if is_some c.publish_requested_at then pending else private

  abbrev pub no_request : QueryChart D → QueryChart D
  no_request c = record c { publish_requested_by = none; publish_requested_at = none }

  abbrev pub no_rejection : QueryChart D → QueryChart D
  no_rejection c = record c {
    publish_rejected_by = none;
    publish_rejected_at = none;
    publish_rejected_reason = none;
  }

  -- `_chart_for_owner`, with the `get_owned` that it calls
  unfoldable pub chart_for_owner : Db D → String → User → Outcome Error (QueryChart D)
  chart_for_owner db chart_id user = elim (Dict.get chart_id db.charts) [
    | none ↦ raise query_not_found
    | some chart ↦ elim (Dict.get chart.query_id db.queries) [
      | none ↦ raise query_not_found
      | some query ↦
          if not (is_admin user) && not (same_option query.owner_id (some user.id))
          then raise query_not_found
          else ok chart
    ]
  ]

  -- one UPDATE of one row under conditions: whether it matched
  unfoldable pub apply_if :
      String → (QueryChart D → Bool) → (QueryChart D → QueryChart D) → Db D → Bool × Db D
  apply_if chart_id conditions values db = elim (Dict.get chart_id db.charts) [
    | none ↦ (false, db)
    | some row ↦
        if conditions row
        then (true, record db { charts = Dict.set chart_id (values row) db.charts })
        else (false, db)
  ]

  audit : User → AuditAction → String → Db D → Db D
  audit user action chart_id db = record db {
    audit_log = record { actor = user.id; action = action; target = chart_id } ∷ db.audit_log;
  }

  redraw : String → Db D → Db D
  redraw query_id db = record db { redrawn = query_id ∷ db.redrawn }

  abbrev pub publish_values : User → ℕ → QueryChart D → QueryChart D
  publish_values user now c = no_rejection (
      no_request
        (record c { is_public = true; published_by = some user.id; published_at = some now }))

  abbrev pub request_values : User → ℕ → QueryChart D → QueryChart D
  request_values user now c =
      no_rejection
        (record c { publish_requested_by = some user.id; publish_requested_at = some now })

  unfoldable pub publish_write : User → ℕ → QueryChart D → Db D → Db D
  unfolding apply_if audit redraw
  publish_write user now chart db =
      if is_admin user
      then (let (matched, db') =
            apply_if chart.id (λ c. not c.is_public) (publish_values user now) db in
          if matched then redraw chart.query_id (audit user chart_published chart.id db') else db')
      else (let (matched, db') =
            apply_if chart.id (λ c. not c.is_public && not (is_some c.publish_requested_at))
              (request_values user now) db in
          if matched then audit user chart_publish_requested chart.id db' else db')

  unfoldable pub publish : Db D → String → User → ℕ → Outcome Error (Db D)
  unfolding chart_for_owner publish_write
  publish db chart_id user now = do
    chart ← chart_for_owner db chart_id user
    ok (publish_write user now chart db)

  unfoldable pub cancel_write : User → QueryChart D → Db D → Db D
  unfolding apply_if audit
  cancel_write user chart db =
      let (matched, db') =
        apply_if chart.id (λ c. not c.is_public && is_some c.publish_requested_at) no_request db in
      if matched
      then audit user chart_publish_cancelled chart.id db'
      else (apply_if chart.id
          (λ c.
            not c.is_public
            && not (is_some c.publish_requested_at)
            && is_some c.publish_rejected_at)
          no_rejection db').1

  unfoldable pub cancel_request : Db D → String → User → Outcome Error (Db D)
  unfolding chart_for_owner cancel_write
  cancel_request db chart_id user = do
    chart ← chart_for_owner db chart_id user
    ok (cancel_write user chart db)

  unfoldable pub pending_chart : Db D → String → Outcome Error (QueryChart D)
  pending_chart db chart_id = elim (Dict.get chart_id db.charts) [
    | none ↦ raise query_not_found
    | some chart ↦
        if chart.is_public
        then raise publish_not_pending
        else if is_some chart.publish_requested_at
        then ok chart
        else raise publish_not_pending
  ]

  -- the request that was read is still the one that waits
  abbrev pub same_request : QueryChart D → QueryChart D → Bool
  same_request chart c =
      not c.is_public
      && same_option c.publish_requested_at chart.publish_requested_at
      && same_option c.publish_requested_by chart.publish_requested_by

  unfoldable pub approve_read :
      (D → String) → Db D → String → User → String → Outcome Error (QueryChart D)
  unfolding require_admin pending_chart
  approve_read digest db chart_id user seen = do
    _ ← require_admin user
    chart ← pending_chart db chart_id
    (if digest chart.definition == seen then ok chart else raise definition_changed)

  abbrev pub approve_values : QueryChart D → ℕ → QueryChart D → QueryChart D
  approve_values chart now c = no_rejection (
      no_request (record c {
        is_public = true;
        published_by = chart.publish_requested_by;
        published_at = some now;
      }))

  unfoldable pub approve_write : User → ℕ → QueryChart D → Db D → Outcome Error (Db D)
  unfolding apply_if audit redraw
  approve_write user now chart db =
      let (matched, db') = apply_if chart.id (same_request chart) (approve_values chart now) db in
      if matched
      then ok (redraw chart.query_id (audit user chart_publish_approved chart.id db'))
      else raise publish_not_pending

  unfoldable pub approve : (D → String) → Db D → String → User → String → ℕ → Outcome Error (Db D)
  unfolding approve_read approve_write
  approve digest db chart_id user seen now = do
    chart ← approve_read digest db chart_id user seen
    approve_write user now chart db

  unfoldable pub reject_read : Db D → String → User → Outcome Error (QueryChart D)
  unfolding require_admin pending_chart
  reject_read db chart_id user = do _ ← require_admin user; pending_chart db chart_id

  abbrev pub reject_values : User → Option String → ℕ → QueryChart D → QueryChart D
  reject_values user cleaned now c = record (no_request c) {
    publish_rejected_by = some user.id;
    publish_rejected_at = some now;
    publish_rejected_reason = cleaned;
  }

  -- `cleaned` is the stripped reason, `none` if nothing is left of it
  unfoldable pub reject_write :
      User → Option String → ℕ → QueryChart D → Db D → Outcome Error (Db D)
  unfolding apply_if audit
  reject_write user cleaned now chart db =
      let (matched, db') =
        apply_if chart.id (same_request chart) (reject_values user cleaned now) db in
      if matched
      then ok (audit user chart_publish_rejected chart.id db')
      else raise publish_not_pending

  unfoldable pub reject : Db D → String → User → Option String → ℕ → Outcome Error (Db D)
  unfolding reject_read reject_write
  reject db chart_id user cleaned now = do
    chart ← reject_read db chart_id user
    reject_write user cleaned now chart db

  unfoldable pub unpublish_read : Db D → String → User → Outcome Error (QueryChart D)
  unfolding chart_for_owner
  unpublish_read db chart_id user = do
    chart ← chart_for_owner db chart_id user
    (if chart.is_public
          && not (is_admin user)
          && not (same_option chart.published_by (some user.id))
        then raise forbidden
        else ok chart)

  abbrev pub unpublish_values : QueryChart D → QueryChart D
  unpublish_values c = record c { is_public = false; published_by = none; published_at = none }

  unfoldable pub unpublish_write : User → QueryChart D → Db D → Db D
  unfolding apply_if audit redraw
  unpublish_write user chart db =
      let (matched, db') =
        apply_if chart.id
          (λ c.
            c.is_public
            && (if is_admin user then true else same_option c.published_by (some user.id)))
          unpublish_values db in
      if matched then redraw chart.query_id (audit user chart_unpublished chart.id db') else db'

  unfoldable pub unpublish : Db D → String → User → Outcome Error (Db D)
  unfolding unpublish_read unpublish_write
  unpublish db chart_id user = do
    chart ← unpublish_read db chart_id user
    ok (unpublish_write user chart db)

  unfoldable pub get_published : Db D → String → Outcome Error (QueryChart D)
  get_published db chart_id = elim (Dict.get chart_id db.charts) [
    | none ↦ raise query_not_found
    | some chart ↦ if chart.is_public then ok chart else raise query_not_found
  ]
