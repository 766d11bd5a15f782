-- ===== src/Publishing/Transitions.antt =====
-- The writes of the publishing workflow, each with a chart that may have been read long before: any
-- sequence of them is an interleaving of the endpoints' transactions.
use fraud_analyzer_engine.Prelude.{
  ℕ, String, ◌≡◌, Bool, true, false, not, ◌&&◌, Option, none, some, List, [], ◌∷◌, arith,
  if◌then◌else◌, ◌==◌, texts, numbers, is_some, same_option, eq_iff, eq_refl, Option-cases, inl,
  inr,
}
use fraud_analyzer_engine.Prelude.Outcome.{Outcome, ok, raise}
use fraud_analyzer_engine.Dict
use fraud_analyzer_engine.Dict.{Dict, get-set}
use fraud_analyzer_engine.Accounts.{User, is_admin}
use fraud_analyzer_engine.Publishing.Defs.{
  publish_values, request_values, no_request, no_rejection, same_request, approve_values,
  reject_values, unpublish_values, Error, QueryChart, Db, apply_if, publish_write, cancel_write,
  approve_write, reject_write, unpublish_write,
}

-- The columns of a chart agree: a published chart has a publisher and a time, and no other has; a
-- request has a requester and a time, and never stands beside a publication; a rejection stands
-- beside neither.
pub record IsWellFormed {D : Type 0} (c : QueryChart D) : Type 0 where
  pub published_at : is_some c.published_at ≡ c.is_public
  pub published_by : is_some c.published_by ≡ c.is_public
  pub requested_by : is_some c.publish_requested_by ≡ is_some c.publish_requested_at
  pub no_request : (c.is_public && is_some c.publish_requested_at) ≡ false
  pub rejected_public : (is_some c.publish_rejected_at && c.is_public) ≡ false
  pub rejected_pending : (is_some c.publish_rejected_at && is_some c.publish_requested_at) ≡ false

pub data Move (D : Type 0) : Type 0 where
  publishing : User → ℕ → QueryChart D → Move D
  cancelling : User → QueryChart D → Move D
  approving : User → ℕ → QueryChart D → Move D
  rejecting : User → Option String → ℕ → QueryChart D → Move D
  unpublishing : User → QueryChart D → Move D

-- A transaction that raises has written nothing.
abbrev pub committed : {D : Type 0} → Db D → Outcome Error (Db D) → Db D
committed db (ok db') = db'
committed db (raise e) = db

module _ {D : Type 0} where
  abbrev pub actor : Move D → User
  actor (publishing user _ _) = user
  actor (cancelling user _) = user
  actor (approving user _ _) = user
  actor (rejecting user _ _ _) = user
  actor (unpublishing user _) = user

  unfoldable pub perform : Move D → Db D → Db D
  perform (publishing user now chart) db = publish_write user now chart db
  perform (cancelling user chart) db = cancel_write user chart db
  perform (approving user now chart) db = committed db (approve_write user now chart db)
  perform (rejecting user reason now chart) db =
      committed db (reject_write user reason now chart db)
  perform (unpublishing user chart) db = unpublish_write user chart db

  unfoldable pub run : List (Move D) → Db D → Db D
  run [] db = db
  run (move ∷ moves) db = run moves (perform move db)

  -- What a move does to the row of its chart.
  unfoldable pub row : Move D → QueryChart D → QueryChart D
  row (publishing user now chart) c =
      if is_admin user
      then (if not c.is_public then publish_values user now c else c)
      else (if not c.is_public && not (is_some c.publish_requested_at)
          then request_values user now c
          else c)
  row (cancelling user chart) c =
      if not c.is_public && is_some c.publish_requested_at
      then no_request c
      else (if not c.is_public
            && not (is_some c.publish_requested_at)
            && is_some c.publish_rejected_at
          then no_rejection c
          else c)
  row (approving user now chart) c = if same_request chart c then approve_values chart now c else c
  row (rejecting user reason now chart) c =
      if same_request chart c then reject_values user reason now c else c
  row (unpublishing user chart) c =
      if c.is_public && (if is_admin user then true else same_option c.published_by (some user.id))
      then unpublish_values c
      else c

  abbrev pub subject : Move D → String
  subject (publishing _ _ chart) = chart.id
  subject (cancelling _ chart) = chart.id
  subject (approving _ _ chart) = chart.id
  subject (rejecting _ _ _ chart) = chart.id
  subject (unpublishing _ chart) = chart.id

  abbrev pub on_row : (QueryChart D → QueryChart D) → Option (QueryChart D) → Option (QueryChart D)
  on_row f none = none
  on_row f (some c) = some (f c)

  get-apply_if :
      (id k : String) (conditions : QueryChart D → Bool) (values : QueryChart D → QueryChart D)
      (db : Db D)
      → Dict.get k (apply_if id conditions values db).1.charts
        ≡ on_row (λ c. if id == k && conditions c then values c else c) (Dict.get k db.charts)
  unfolding apply_if
  get-apply_if id k conditions values db = elim (Option-cases (Dict.get id db.charts)) [
    | inl n ↦ ground (arith, eq_iff id k)
    | inr (c, h) ↦ ground (arith, eq_iff id k, get-set id k (values c) db.charts)
  ]

  -- Whatever has been committed since its chart was read, a move changes the row of that chart alone,
  -- as `row` says.
  pub get-perform :
      (move : Move D) (db : Db D) (k : String)
      → Dict.get k (perform move db).charts
        ≡ on_row (λ c. if subject move == k then row move c else c) (Dict.get k db.charts)
  unfolding perform row publish_write cancel_write approve_write reject_write unpublish_write
  get-perform (publishing user now chart) db k = ground (
    arith,
    get-apply_if chart.id k (λ (c : QueryChart D). not c.is_public) (publish_values user now) db,
    get-apply_if chart.id k
        (λ (c : QueryChart D). not c.is_public && not (is_some c.publish_requested_at))
        (request_values user now) db,
  )
  get-perform (cancelling user chart) db k = ground (
    arith,
    get-apply_if chart.id k
        (λ (c : QueryChart D). not c.is_public && is_some c.publish_requested_at) no_request db,
    get-apply_if chart.id k
        (λ (c : QueryChart D).
          not c.is_public && not (is_some c.publish_requested_at) && is_some c.publish_rejected_at)
        no_rejection db,
  )
  get-perform (approving user now chart) db k =
      ground (arith, get-apply_if chart.id k (same_request chart) (approve_values chart now) db)
  get-perform (rejecting user reason now chart) db k =
      ground
        (arith, get-apply_if chart.id k (same_request chart) (reject_values user reason now) db)
  get-perform (unpublishing user chart) db k = ground (
    arith,
    get-apply_if chart.id k
        (λ (c : QueryChart D).
          c.is_public
          && (if is_admin user then true else same_option c.published_by (some user.id)))
        unpublish_values db,
  )

  pub get-perform_self :
      (move : Move D) (db : Db D) (c : QueryChart D)
      → Dict.get (subject move) db.charts ≡ some c
      → Dict.get (subject move) (perform move db).charts ≡ some (row move c)
  get-perform_self move db c h =
      rw (get-perform move db (subject move), h) (ground (arith, eq_refl (subject move)))
