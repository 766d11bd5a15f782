-- ===== src/Publishing/Histories.antt =====
-- The endpoints of features/charts/service.py as requests that read, stay in flight, and write, with
-- the reads and the writes of others between.
use fraud_analyzer_engine.Prelude.{
  ◌≡◌, refl, Bool, true, false, not, ◌&&◌, String, List, [], ◌∷◌, ◌++◌, all, arith,
}
use fraud_analyzer_engine.Prelude.Outcome.{ok}
use fraud_analyzer_engine.Accounts.{User, is_admin}
use fraud_analyzer_engine.Publishing.Defs.{
  QueryChart, Db, chart_for_owner, approve_read, reject_read, unpublish_read,
}
use fraud_analyzer_engine.Publishing.Transitions.{
  IsWellFormed, Move, publishing, cancelling, approving, rejecting, unpublishing, actor, row,
  perform,
}
use fraud_analyzer_engine.Publishing.Races.{
  is_decided, At, perform-At, row-IsWellFormed, row-no_admin, approve_read_lem,
}

module _ {D : Type 0} (digest : D → String) where
  -- The reading half of an endpoint has let the move through, with the chart that it will write by.
  abbrev pub Read : Db D → Move D → Type 0
  Read db (publishing user now chart) = (id : String) × (chart_for_owner db id user ≡ ok chart)
  Read db (cancelling user chart) = (id : String) × (chart_for_owner db id user ≡ ok chart)
  Read db (approving user now chart) =
      (id : String) × (seen : String) × (approve_read digest db id user seen ≡ ok chart)
  Read db (rejecting user reason now chart) = (id : String) × (reject_read db id user ≡ ok chart)
  Read db (unpublishing user chart) = (id : String) × (unpublish_read db id user ≡ ok chart)

  module _ (asks : User → Bool) (begin : Db D) where
    -- The databases that requests of the users who ask can lead to, and the moves in flight: read, and
    -- not yet written. A request that its reading half refuses does nothing.
    pub data Reach : Db D → List (Move D) → Type 0 where
      start : Reach begin []
      read :
          {db : Db D} {moves : List (Move D)} (move : Move D)
          → Reach db moves
          → asks (actor move) ≡ true
          → Read db move
          → Reach db (move ∷ moves)
      write :
          {db : Db D} (before : List (Move D)) (move : Move D) (after : List (Move D))
          → Reach db (before ++ move ∷ after)
          → Reach (perform move db) (before ++ after)

  -- The reading halves let nothing through but decisions of administrators.
  Read-is_decided : (db : Db D) (move : Move D) → Read db move → is_decided move ≡ true
  Read-is_decided db (publishing user now chart) r = refl
  Read-is_decided db (cancelling user chart) r = refl
  Read-is_decided db (approving user now chart) (id, seen, h) =
      (approve_read_lem digest db id user seen chart h).0
  Read-is_decided db (rejecting user reason now chart) r = refl
  Read-is_decided db (unpublishing user chart) r = refl

  all-take :
      (p : Move D → Bool) (before : List (Move D)) (move : Move D) (after : List (Move D))
      → all p (before ++ move ∷ after) ≡ true
      → (p move ≡ true) × (all p (before ++ after) ≡ true)
  all-take p [] move after h = (ground arith, ground arith)
  all-take p (m ∷ before) move after h =
      let (here, others) = all-take p before move after (ground arith) in (here, ground arith)

  -- What every move of those who ask keeps of a chart, every history keeps of it.
  Reach-At :
      (k : String) (P : QueryChart D → Type 0) (asks : User → Bool) (begin : Db D)
      → ((move : Move D) (c : QueryChart D)
          → (is_decided move && asks (actor move)) ≡ true
          → P c
          → P (row move c))
      → At k P begin
      → {db : Db D} {moves : List (Move D)} → Reach asks begin db moves
      → (all (λ m. is_decided m && asks (actor m)) moves ≡ true) × At k P db
  Reach-At k P asks begin keep h start = (refl, h)
  Reach-At k P asks begin keep h (read {db} move r a let_through) =
      let (flying, each) = Reach-At k P asks begin keep h r in
      (ground (arith, Read-is_decided db move let_through), each)
  Reach-At k P asks begin keep h (write {db} before move after r) =
      let (flying, each) = Reach-At k P asks begin keep h r in
      let (here, others) =
        all-take (λ m. is_decided m && asks (actor m)) before move after flying in
      (others, perform-At k P move db (λ c p. keep move c here p) each)

  -- In every history of requests, whoever makes them, the columns of a chart keep agreeing.
  Reach-IsWellFormed :
      (k : String) (begin db : Db D) (moves : List (Move D))
      → At k IsWellFormed begin
      → Reach (λ user. true) begin db moves
      → At k IsWellFormed db
  Reach-IsWellFormed k begin db moves h r =
      (Reach-At k IsWellFormed (λ user. true) begin
        (λ move c d w. row-IsWellFormed move c (ground arith) w) h r).1

  -- In every history of requests that no administrator makes, from a database with nothing in flight, a
  -- chart that is not public at the start is not public. The moves in flight may have been read at any
  -- time since, and are written in any order or never.
  pub Reach-private :
      (k : String) (begin db : Db D) (moves : List (Move D))
      → At k (λ c. c.is_public ≡ false) begin
      → Reach (λ user. not (is_admin user)) begin db moves
      → At k (λ c. c.is_public ≡ false) db
  Reach-private k begin db moves h r =
      (Reach-At k (λ c. c.is_public ≡ false) (λ user. not (is_admin user)) begin row-no_admin h r).1
