-- ===== src/Publishing/Races.antt =====
-- What holds in every interleaving of the publishing endpoints.
use fraud_analyzer_engine.Prelude.{
  Option, if◌then◌else◌, none, Bool, ℕ, String, ◌≡◌, Bool, true, false, not, ◌&&◌, some, List, [],
  ◌∷◌, arith, ◌==◌, texts, numbers, is_some, all, eq_iff,
}
use fraud_analyzer_engine.Prelude.Outcome.{ok, raise}
use fraud_analyzer_engine.Dict
use fraud_analyzer_engine.Accounts.{User, is_admin}
use fraud_analyzer_engine.Publishing.Defs.{
  QueryChart, Db, publish_not_pending, same_request, approve_values, approve_read, approve_write,
}
use fraud_analyzer_engine.Publishing.Transitions.{
  on_row, IsWellFormed, Move, publishing, cancelling, approving, rejecting, unpublishing, actor,
  subject, row, perform, run, get-perform, get-perform_self,
}

module _ {D : Type 0} where
  -- An approval comes from `approve_read`: its actor is an administrator, and the chart that was read
  -- was waiting.
  abbrev pub is_decided : Move D → Bool
  is_decided (approving user now chart) = is_admin user && is_some chart.publish_requested_at
  is_decided _ = true

  -- The chart of an id, if there is one.
  abbrev pub OnChart : (QueryChart D → Type 0) → Option (QueryChart D) → Type 0
  OnChart P none = Unit
  OnChart P (some c) = P c

  abbrev pub At : String → (QueryChart D → Type 0) → Db D → Type 0
  At k P db = OnChart P (Dict.get k db.charts)

  row-OnChart :
      (P : QueryChart D → Type 0) (move : Move D) (here : Bool) (found : Option (QueryChart D))
      → ((c : QueryChart D) → P c → P (row move c))
      → OnChart P found
      → OnChart P (on_row (λ c. if here then row move c else c) found)
  row-OnChart P move here none keep h = tt
  row-OnChart P move true (some c) keep h = keep c h
  row-OnChart P move false (some c) keep h = h

  -- What a move's row step keeps, the move keeps of a chart.
  pub perform-At :
      (k : String) (P : QueryChart D → Type 0) (move : Move D) (db : Db D)
      → ((c : QueryChart D) → P c → P (row move c))
      → At k P db
      → At k P (perform move db)
  perform-At k P move db keep h =
      rw (get-perform move db k)
        (row-OnChart P move (subject move == k) (Dict.get k db.charts) keep h)

  pub row-IsWellFormed :
      (move : Move D) (c : QueryChart D)
      → is_decided move ≡ true
      → IsWellFormed c
      → IsWellFormed (row move c)
  unfolding row
  row-IsWellFormed (publishing user now chart) c d w =
      ground (arith, w.no_request, w.rejected_public, w.rejected_pending)
  row-IsWellFormed (cancelling user chart) c d w =
      ground (arith, w.no_request, w.rejected_public, w.rejected_pending)
  row-IsWellFormed (approving user now chart) c d w =
      ground (arith, w.no_request, w.rejected_public, w.rejected_pending)
  row-IsWellFormed (rejecting user reason now chart) c d w =
      ground (arith, w.no_request, w.rejected_public, w.rejected_pending)
  row-IsWellFormed (unpublishing user chart) c d w =
      ground (arith, w.no_request, w.rejected_public, w.rejected_pending)

  -- What one chart is, whatever the moves, if each of them keeps it.
  run-At :
      (k : String) (P : QueryChart D → Type 0) (ok_move : Move D → Bool)
      → ((move : Move D) (c : QueryChart D) → ok_move move ≡ true → P c → P (row move c))
      → (moves : List (Move D)) (db : Db D) → all ok_move moves ≡ true
      → At k P db
      → At k P (run moves db)
  unfolding run
  run-At k P ok_move keep [] db d each = each
  run-At k P ok_move keep (move ∷ moves) db d each =
      run-At k P ok_move keep moves (perform move db) (ground arith)
        (perform-At k P move db (λ c p. keep move c (ground arith) p) each)

  -- In every interleaving of moves, with whatever charts were read, where each approval is an
  -- administrator's and of a chart that had a request when it was read (`is_decided`: what
  -- `approve_read` asks), the columns of a chart keep agreeing: published with a publisher and a
  -- time, or waiting with a requester, or neither, and a rejection only beside neither.
  pub run-IsWellFormed :
      (k : String) (moves : List (Move D)) (db : Db D)
      → all is_decided moves ≡ true
      → At k IsWellFormed db
      → At k IsWellFormed (run moves db)
  run-IsWellFormed k = run-At k IsWellFormed is_decided row-IsWellFormed

  pub row-no_admin :
      (move : Move D) (c : QueryChart D)
      → (is_decided move && not (is_admin (actor move))) ≡ true
      → c.is_public ≡ false
      → (row move c).is_public ≡ false
  unfolding row
  row-no_admin (publishing user now chart) c d p = ground arith
  row-no_admin (cancelling user chart) c d p = ground arith
  row-no_admin (approving user now chart) c d p = ground arith
  row-no_admin (rejecting user reason now chart) c d p = ground arith
  row-no_admin (unpublishing user chart) c d p = ground arith

  -- In every interleaving of moves, with whatever charts were read, none of them by an administrator
  -- or by `publisher`, a chart that `publisher` has published stays published by them: what an
  -- administrator has published is not an analyst's to retract.
  pub run-freeze :
      (k publisher : String) (moves : List (Move D)) (db : Db D)
      → all (λ m. not (is_admin (actor m)) && not ((actor m).id == publisher)) moves ≡ true
      → At k (λ c. (c.is_public ≡ true) × (c.published_by ≡ some publisher)) db
      → At k (λ c. (c.is_public ≡ true) × (c.published_by ≡ some publisher)) (run moves db)
  unfolding row
  run-freeze k publisher =
      run-At k (λ c. (c.is_public ≡ true) × (c.published_by ≡ some publisher))
        (λ m. not (is_admin (actor m)) && not ((actor m).id == publisher)) row_frozen
    where
      row_frozen :
          (move : Move D) (c : QueryChart D)
          → (not (is_admin (actor move)) && not ((actor move).id == publisher)) ≡ true
          → (c.is_public ≡ true) × (c.published_by ≡ some publisher)
          → ((row move c).is_public ≡ true) × ((row move c).published_by ≡ some publisher)
      row_frozen (publishing user now chart) c d p = ground arith
      row_frozen (cancelling user chart) c d p = ground arith
      row_frozen (approving user now chart) c d p = ground arith
      row_frozen (rejecting user reason now chart) c d p = ground arith
      row_frozen (unpublishing user chart) c d p =
          ground (arith, eq_iff user.id publisher, eq_iff publisher user.id)

  -- `approve_read` answers only an administrator, with a chart that waits and whose definition has the
  -- fingerprint that they have seen.
  pub approve_read_lem :
      (digest : D → String) (db : Db D) (chart_id : String) (user : User) (seen : String)
      (chart : QueryChart D)
      → approve_read digest db chart_id user seen ≡ ok chart
      → (is_decided (approving user 0 chart) ≡ true)
        × (Dict.get chart_id db.charts ≡ some chart)
        × (digest chart.definition ≡ seen)
  unfolding approve_read
  approve_read_lem digest db chart_id user seen chart h =
      ground (arith, eq_iff (digest chart.definition) seen)

  -- An approval writes only over the request that was read: it succeeds exactly when the row is
  -- not public and its requester and time are those that were read; then it publishes in the
  -- requester's name. Otherwise it raises, and the row stays.
  pub approve_write_lem :
      (user : User) (now : ℕ) (chart row_now : QueryChart D) (db : Db D)
      → Dict.get chart.id db.charts ≡ some row_now
      → (approve_write user now chart db ≡ (
          if same_request chart row_now
          then ok (perform (approving user now chart) db)
          else raise publish_not_pending))
        × (Dict.get chart.id (perform (approving user now chart) db).charts
            ≡ some
                (if same_request chart row_now then approve_values chart now row_now else row_now))
  unfolding approve_write perform row
  approve_write_lem user now chart row_now db h =
      (ground arith, get-perform_self (approving user now chart) db row_now h)
