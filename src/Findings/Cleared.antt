-- ===== src/Findings/Cleared.antt =====
-- What dismissing does to a reader's queue.
use fraud_analyzer_engine.Prelude.{
  ◌+◌, String, ◌≡◌, refl, sym, Bool, true, false, not, ◌&&◌, ◌||◌, List, [], ◌∷◌, arith, ◌==◌,
  texts, numbers, length, is_some, eq_iff, eq_refl,
}
use fraud_analyzer_engine.Dict
use fraud_analyzer_engine.Findings.Defs.{FlaggedTable, rows_of, is_listed}
use fraud_analyzer_engine.Findings.Dismissals.{
  FlagDismissal, is_of, dismissed_fingerprints, from_keys, fresh_of, add_dismissals, dismiss,
}

-- A person has dismissed a row of a query.
unfoldable pub is_dismissed : String → String → String → List FlagDismissal → Bool
unfolding is_of
is_dismissed query_id user_id f [] = false
is_dismissed query_id user_id f (d ∷ ds) =
    (is_of query_id user_id d && d.row_fingerprint == f) || is_dismissed query_id user_id f ds

-- The constraint of the table: a person dismisses a row of a query once.
unfoldable pub is_once : List FlagDismissal → Bool
unfolding is_dismissed
is_once [] = true
is_once (d ∷ ds) = not (is_dismissed d.query_id d.user_id d.row_fingerprint ds) && is_once ds

dismissed-listed :
    (query_id user_id f : String) (ds : List FlagDismissal)
    → is_listed (dismissed_fingerprints query_id user_id ds) f ≡ is_dismissed query_id user_id f ds
unfolding is_listed dismissed_fingerprints is_dismissed is_of
dismissed-listed query_id user_id f [] = refl
dismissed-listed query_id user_id f (d ∷ ds) =
    ground (arith, dismissed-listed query_id user_id f ds)

pub listed-from_keys :
    (seen fs : List String) (f : String)
    → is_listed (from_keys seen fs) f ≡ (is_listed fs f && not (is_listed seen f))
unfolding is_listed from_keys
listed-from_keys seen [] f = refl
listed-from_keys seen (g ∷ fs) f =
    ground (arith, eq_iff g f, listed-from_keys seen fs f, listed-from_keys (g ∷ seen) fs f)

pub listed-fresh_of :
    (stored : String → Bool) (existing wanted : List String) (f : String)
    → is_listed (fresh_of stored existing wanted) f
      ≡ (is_listed wanted f && stored f && not (is_listed existing f))
unfolding is_listed fresh_of
listed-fresh_of stored existing [] f = refl
listed-fresh_of stored existing (g ∷ wanted) f =
    ground (arith, eq_iff g f, listed-fresh_of stored existing wanted f)

dismissed-add :
    (query_id user_id q u f : String) (fs : List String) (ds : List FlagDismissal)
    → is_dismissed q u f (add_dismissals query_id user_id fs ds)
      ≡ ((query_id == q && user_id == u && is_listed fs f) || is_dismissed q u f ds)
unfolding is_listed add_dismissals is_dismissed is_of
dismissed-add query_id user_id q u f [] ds = ground arith
dismissed-add query_id user_id q u f (g ∷ fs) ds =
    ground (arith, dismissed-add query_id user_id q u f fs ds)

pub length-add_dismissals :
    (query_id user_id : String) (fs : List String) (ds : List FlagDismissal)
    → length (add_dismissals query_id user_id fs ds) ≡ length fs + length ds
unfolding add_dismissals
length-add_dismissals query_id user_id [] ds = omega arith
length-add_dismissals query_id user_id (f ∷ fs) ds =
    omega (arith, length-add_dismissals query_id user_id fs ds)

-- no text twice
unfoldable is_distinct : List String → Bool
unfolding is_listed
is_distinct [] = true
is_distinct (f ∷ fs) = not (is_listed fs f) && is_distinct fs

from_keys-distinct : (seen fs : List String) → is_distinct (from_keys seen fs) ≡ true
unfolding is_distinct from_keys is_listed
from_keys-distinct seen [] = refl
from_keys-distinct seen (f ∷ fs) = ground (
  arith,
  from_keys-distinct seen fs,
  from_keys-distinct (f ∷ seen) fs,
  listed-from_keys (f ∷ seen) fs f,
  eq_refl f,
)

fresh_of-distinct :
    (stored : String → Bool) (existing wanted : List String)
    → is_distinct wanted ≡ true
    → is_distinct (fresh_of stored existing wanted) ≡ true
unfolding is_distinct fresh_of
fresh_of-distinct stored existing [] h = refl
fresh_of-distinct stored existing (f ∷ wanted) h =
    ground
      (arith, listed-fresh_of stored existing wanted f, fresh_of-distinct stored existing wanted)

once-add :
    (query_id user_id : String) (fs : List String) (ds : List FlagDismissal)
    → is_distinct fs ≡ true
    → ((f : String) → is_listed fs f ≡ true → is_dismissed query_id user_id f ds ≡ false)
    → is_once ds ≡ true
    → is_once (add_dismissals query_id user_id fs ds) ≡ true
unfolding is_once add_dismissals is_distinct is_listed
once-add query_id user_id [] ds d new o = o
once-add query_id user_id (f ∷ fs) ds d new o = ground (
  arith,
  dismissed-add query_id user_id query_id user_id f fs ds,
  eq_refl f,
  new f,
  once-add query_id user_id fs ds (ground arith) (λ g h. ground (arith, new g)) o,
)

-- Dismissing marks, for this person and on this query, the given rows that are stored findings of the
-- query, and leaves every other mark as it was. It returns the number of marks it added, and marks
-- nothing twice.
pub dismiss_lem :
    {V : Type 0} (table : FlaggedTable V) (query_id user_id q u f : String)
    (fingerprints : List String) (ds : List FlagDismissal)
    → is_once ds ≡ true
    → (let (count, ds') = dismiss table query_id user_id fingerprints ds in
        (is_dismissed q u f ds' ≡ (
          (query_id == q
            && user_id == u
            && is_listed fingerprints f
            && is_some (Dict.get f (rows_of query_id table)))
          || is_dismissed q u f ds))
        × (count + length ds ≡ length ds')
        × (is_once ds' ≡ true))
unfolding dismiss is_listed
dismiss_lem table query_id user_id q u f fingerprints ds o =
    let stored = λ (f : String). is_some (Dict.get f (rows_of query_id table)) in
    let existing = dismissed_fingerprints query_id user_id ds in
    let wanted = from_keys [] fingerprints in
    let fresh = fresh_of stored existing wanted in
    (
      ground (
        arith,
        dismissed-add query_id user_id q u f fresh ds,
        listed-fresh_of stored existing wanted f,
        listed-from_keys [] fingerprints f,
        dismissed-listed query_id user_id f ds,
        eq_iff query_id q,
        eq_iff user_id u,
      ),
      sym (length-add_dismissals query_id user_id fresh ds),
      once-add query_id user_id fresh ds
          (fresh_of-distinct stored existing wanted (from_keys-distinct [] fingerprints))
          (λ g h. ground (
            arith,
            listed-fresh_of stored existing wanted g,
            dismissed-listed query_id user_id g ds,
          ))
          o,
    )
