-- ===== src/Publishing/Approvals.antt =====
-- `approve` of features/charts/service.py from its reading to its writing, with no other transaction
-- between.
use fraud_analyzer_engine.Prelude.{
  ◌≡◌, refl, ℕ, String, Bool, true, false, not, ◌&&◌, Option, none, some, ◌∷◌, if◌then◌else◌, ◌==◌,
  texts, numbers, is_some, same_option, arith, eq_iff, eq_refl,
}
use fraud_analyzer_engine.Prelude.Outcome.{Outcome, ok, raise}
use fraud_analyzer_engine.Dict
use fraud_analyzer_engine.Dict.{get-set}
use fraud_analyzer_engine.Accounts.{User, is_admin}
use fraud_analyzer_engine.Publishing.Defs.{
  QueryChart, Db, Error, forbidden, publish_not_pending, definition_changed, chart_publish_approved,
  approve, approve_read, pending_chart, approve_write, apply_if, same_request, approve_values,
}
use fraud_analyzer_engine.Publishing.Transitions.{committed}

same_option_refl : (o : Option ℕ) → same_option o o ≡ true
same_option_refl none = refl
same_option_refl (some n) = ground arith

same_option_refl_text : (o : Option String) → same_option o o ≡ true
same_option_refl_text none = refl
same_option_refl_text (some t) = eq_refl t

-- why `approve` refuses, in the order in which it asks
abbrev pub refusal : User → Bool → Bool → Option Error
refusal user waits is_seen =
    if not (is_admin user)
    then some forbidden
    else if not waits
    then some publish_not_pending
    else if not is_seen
    then some definition_changed
    else none

abbrev pub error_of : {D : Type 0} → Outcome Error (Db D) → Option Error
error_of (ok db) = none
error_of (raise e) = some e

module _ {D : Type 0} where
  same_request_refl : (c : QueryChart D) → c.is_public ≡ false → same_request c c ≡ true
  same_request_refl c p =
      ground (
        arith,
        same_option_refl c.publish_requested_at,
        same_option_refl_text c.publish_requested_by,
      )

  -- what an administrator may accept: a request that waits, for the definition that they have seen
  abbrev pub may_accept : (D → String) → User → String → QueryChart D → Bool
  may_accept digest user seen chart =
      is_admin user
      && not chart.is_public
      && is_some chart.publish_requested_at
      && (digest chart.definition == seen)

  abbrev pub published_request : ℕ → QueryChart D → QueryChart D
  published_request now chart = record chart {
    is_public = true;
    published_by = chart.publish_requested_by;
    published_at = some now;
    publish_requested_by = none;
    publish_requested_at = none;
    publish_rejected_by = none;
    publish_rejected_at = none;
    publish_rejected_reason = none;
  }

  -- With no other transaction between its halves, an approval of a chart that is stored under its id
  -- refuses a user who is not an administrator, then a chart that is public or that nobody asked
  -- for, then a definition whose fingerprint is not the one that was seen, and nothing else. If it
  -- does not refuse, the chart is public in the requester's name, with the definition that was
  -- compared and neither a request nor a rejection, one audit entry is added and its query is
  -- redrawn. Every other chart, and after a refusal everything of these, is as it was.
  pub approve_lem :
      (digest : D → String) (db : Db D) (chart_id k : String) (user : User) (seen : String)
      (now : ℕ) (chart : QueryChart D)
      → Dict.get chart_id db.charts ≡ some chart
      → chart.id ≡ chart_id
      → (error_of (approve digest db chart_id user seen now)
          ≡ refusal user
              (not chart.is_public && is_some chart.publish_requested_at)
              (digest chart.definition == seen))
        × (Dict.get k (committed db (approve digest db chart_id user seen now)).charts ≡ (
            if chart_id == k && may_accept digest user seen chart
            then some (published_request now chart)
            else Dict.get k db.charts))
        × ((committed db (approve digest db chart_id user seen now)).audit_log ≡ (
            if may_accept digest user seen chart
            then record { actor = user.id; action = chart_publish_approved; target = chart_id }
              ∷ db.audit_log
            else db.audit_log))
        × ((committed db (approve digest db chart_id user seen now)).redrawn ≡ (
            if may_accept digest user seen chart then chart.query_id ∷ db.redrawn else db.redrawn))
  unfolding approve approve_read pending_chart approve_write apply_if
  approve_lem digest db chart_id k user seen now chart h e = (
    ground (arith, same_request_refl chart, eq_iff chart.id chart_id),
    ground (
      arith,
      same_request_refl chart,
      eq_iff chart.id chart_id,
      eq_iff chart_id k,
      get-set chart_id k (approve_values chart now chart) db.charts,
    ),
    ground (arith, same_request_refl chart, eq_iff chart.id chart_id),
    ground (arith, same_request_refl chart, eq_iff chart.id chart_id),
  )
