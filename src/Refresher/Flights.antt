-- ===== src/Refresher/Flights.antt =====
-- The refresher under any sequence of requests and ends of refreshes.
use fraud_analyzer_engine.Prelude.{
  ℕ, suc, ◌-◌, ◌≤◌, String, ◌≡◌, refl, ap, ◌∙◌, inl, inr, Bool, true, false, not, ◌&&◌, ◌||◌,
  Option, List, [], ◌∷◌, ◌==◌, texts, if◌then◌else◌, arith, eq_iff, Option-cases, Bool-cases,
}
use fraud_analyzer_engine.Dict
use fraud_analyzer_engine.Dict.{Dict, get-set, get-remove}
use fraud_analyzer_engine.Clock.{Clocks}
use fraud_analyzer_engine.Queries.{Connection, SavedQuery, Stores, Run, Program}
use fraud_analyzer_engine.Refresher.Defs.{
  Refresher, is_in_flight, add, discard, request_refresh, hold_off, end_cooldown, refresh_run,
  refresh_body, refresh, reset,
}

in_flight-discard :
    (q k : String) (flights : List String)
    → is_in_flight k (discard q flights) ≡ (is_in_flight k flights && not (q == k))
unfolding is_in_flight discard
in_flight-discard q k [] = refl
in_flight-discard q k (j ∷ flights) =
    ground (arith, in_flight-discard q k flights, eq_iff j q, eq_iff j k, eq_iff q k)

in_flight-request :
    (q k : String) (now : Clocks) (submitted : Bool) (r : Refresher)
    → (let (started, r') = request_refresh q now submitted r in
        is_in_flight k r'.in_flight ≡ (is_in_flight k r.in_flight || (started && q == k)))
unfolding request_refresh is_in_flight add
in_flight-request q k now submitted r =
    ground (arith, in_flight-discard q k (q ∷ r.in_flight), eq_iff q k)

started-new :
    (q : String) (now : Clocks) (submitted : Bool) (r : Refresher)
    → (request_refresh q now submitted r).0 ≡ true
    → is_in_flight q r.in_flight ≡ false
unfolding request_refresh
started-new q now submitted r h = ground arith

module _ {V C : Type 0} (program : Program V C) where
  in_flight-refresh_run :
      (query_id : String) (query : SavedQuery) (user_id : Option String) (run : Run V C)
      (r : Refresher) (stores : Stores V C)
      → (refresh_run program query_id query user_id run r stores).0.in_flight ≡ r.in_flight
  unfolding refresh_run hold_off end_cooldown
  in_flight-refresh_run query_id query user_id run r stores = ground arith

  in_flight-refresh_body :
      (queries : Dict SavedQuery) (connections : Dict Connection) (query_id : String)
      (user_id : Option String) (run : Run V C) (r : Refresher) (stores : Stores V C)
      → (refresh_body program queries connections query_id user_id run r stores).0.in_flight
        ≡ r.in_flight
  unfolding refresh_body
  in_flight-refresh_body queries connections query_id user_id run r stores =
      elim (Option-cases (Dict.get query_id queries)) [
        | inl n ↦ rw (refresh_body, n) refl
        | inr (query, q) ↦ elim (Option-cases (Dict.get query.connection_id connections)) [
          | inl n ↦ rw (refresh_body, q, n) refl
          | inr (conn, c) ↦ elim (Bool-cases conn.paused) [
            | inl p ↦ rw (refresh_body, q, c, p) refl
            | inr p ↦
                rw (refresh_body, q, c, p)
                  (in_flight-refresh_run query_id query user_id run r stores)
          ]
        ]
      ]

  pub in_flight-refresh :
      (queries : Dict SavedQuery) (connections : Dict Connection) (query_id k : String)
      (user_id : Option String) (run : Run V C) (r : Refresher) (stores : Stores V C)
      → is_in_flight k
          (refresh program queries connections query_id user_id run r stores).0.in_flight
        ≡ (is_in_flight k r.in_flight && not (query_id == k))
  unfolding refresh
  in_flight-refresh queries connections query_id k user_id run r stores =
      ap (λ flights. is_in_flight k (discard query_id flights))
        (in_flight-refresh_body queries connections query_id user_id run r stores)
      ∙ in_flight-discard query_id k r.in_flight

-- The refreshes of a query that the pool is running.
unfoldable pub runs_of : String → List String → ℕ
runs_of query_id [] = 0
runs_of query_id (q ∷ running) =
    if q == query_id then suc (runs_of query_id running) else runs_of query_id running

unfoldable pub take_out : String → List String → List String
take_out query_id [] = []
take_out query_id (q ∷ running) = if q == query_id then running else q ∷ take_out query_id running

-- The state of the refresher, and the queries whose refreshes are running.
pub record Pool : Type 0 where
  pub refresher : Refresher
  pub running : List String

unfoldable pub requested : String → Clocks → Bool → Pool → Pool
requested q now submitted p =
    let (started, r) = request_refresh q now submitted p.refresher in
    record { refresher = r; running = if started then q ∷ p.running else p.running }

unfoldable pub idle : Pool
idle = record {
  refresher = record { in_flight = []; cooldown_until = []; cooldown_wall = [] };
  running = [];
}

module _ {V C : Type 0} (program : Program V C) where
  unfoldable pub refreshed :
      Dict SavedQuery
      → Dict Connection
      → String
      → Option String
      → Run V C
      → Stores V C
      → Pool
      → Pool
  refreshed queries connections q user_id run stores p = record {
    refresher = (refresh program queries connections q user_id run p.refresher stores).0;
    running = take_out q p.running;
  }

  -- A request, the end of a refresh that is running, or a reset of the cooldowns.
  pub data Step : Pool → Pool → Type 0 where
    request :
        (p : Pool) (q : String) (now : Clocks) (submitted : Bool)
        → Step p (requested q now submitted p)
    finish :
        (p : Pool) (queries : Dict SavedQuery) (connections : Dict Connection) (q : String)
        (user_id : Option String) (run : Run V C) (stores : Stores V C)
        → 1 ≤ runs_of q p.running
        → Step p (refreshed queries connections q user_id run stores p)
    forget : (p : Pool) → Step p (record p { refresher = reset p.refresher })

  pub data Reach : Pool → Type 0 where
    start : Reach idle
    next : {p p' : Pool} → Reach p → Step p p' → Reach p'

-- A query is in flight just when one refresh of it is running, and never more than one is.
abbrev pub IsSingle : Pool → Type 0
IsSingle p =
    (q : String) → runs_of q p.running ≡ (if is_in_flight q p.refresher.in_flight then 1 else 0)

runs_of-take_out :
    (q k : String) (running : List String)
    → runs_of k (take_out q running) ≡ (if q == k then runs_of k running - 1 else runs_of k running)
unfolding runs_of take_out
runs_of-take_out q k [] = ground arith
runs_of-take_out q k (j ∷ running) =
    ground (arith, runs_of-take_out q k running, eq_iff j q, eq_iff j k, eq_iff q k)

requested-IsSingle :
    (q : String) (now : Clocks) (submitted : Bool) (p : Pool)
    → IsSingle p
    → IsSingle (requested q now submitted p)
unfolding requested runs_of
requested-IsSingle q now submitted p s k = ground (
  arith,
  s k,
  in_flight-request q k now submitted p.refresher,
  started-new q now submitted p.refresher,
  eq_iff q k,
)

module _ {V C : Type 0} (program : Program V C) where
  Step-IsSingle : {p p' : Pool} → Step program p p' → IsSingle p → IsSingle p'
  unfolding refreshed reset
  Step-IsSingle (request p q now submitted) s = requested-IsSingle q now submitted p s
  Step-IsSingle (finish p queries connections q user_id run stores h) s = λ k. ground (
    arith,
    s k,
    runs_of-take_out q k p.running,
    in_flight-refresh program queries connections q k user_id run p.refresher stores,
  )
  Step-IsSingle (forget p) s = s

-- However requests, ends of refreshes and resets follow each other from an idle start, at most one
-- refresh of a query is running, and it is one just when the query is marked as in flight.
pub Reach-IsSingle :
    {V C : Type 0} (program : Program V C) (p : Pool) → Reach program p → IsSingle p
unfolding idle is_in_flight runs_of
Reach-IsSingle program p start = λ q. refl
Reach-IsSingle program p (next r step) = Step-IsSingle program step (Reach-IsSingle program _ r)
