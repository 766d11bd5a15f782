-- ===== src/Findings/Restored.antt =====
-- What restoring does to a reader's queue.
use fraud_analyzer_engine.Prelude.{
  ℕ, ◌+◌, ◌≤◌, String, ◌≡◌, refl, sym, ap, ◌∙◌, Bool, true, false, not, ◌&&◌, ◌||◌, Option, none,
  some, List, [], ◌∷◌, arith, ◌==◌, texts, numbers, if◌then◌else◌, length, is_some, eq_iff, eq_refl,
}
use fraud_analyzer_engine.Dict
use fraud_analyzer_engine.Findings.Defs.{FlaggedTable, rows_of, is_listed}
use fraud_analyzer_engine.Findings.Dismissals.{
  FlagDismissal, is_of, dismissed_fingerprints, from_keys, fresh_of, add_dismissals, dismiss,
  is_wanted, dismissals_left, restore,
}
use fraud_analyzer_engine.Findings.Cleared.{
  is_dismissed, listed-from_keys, listed-fresh_of, length-add_dismissals,
}

same_either_way : (a b c : String) → a ≡ c → (a == b) ≡ (b == c)
same_either_way a b c h = ground (arith, eq_iff a b, eq_iff b c)

-- What marks a row for this person is left out just where the row is wanted.
wanted_mark :
    (query_id user_id q u f : String) (fs : Option (List String)) (d : FlagDismissal)
    → (is_of q u d && d.row_fingerprint == f) ≡ true
    → (is_of query_id user_id d && is_wanted fs d.row_fingerprint)
      ≡ (query_id == q && user_id == u && is_wanted fs f)
unfolding is_of
wanted_mark query_id user_id q u f fs d h =
    let same : d.row_fingerprint ≡ f = ground (arith, eq_iff d.row_fingerprint f) in
    let same_query : d.query_id ≡ q = ground (arith, eq_iff d.query_id q) in
    let same_user : d.user_id ≡ u = ground (arith, eq_iff d.user_id u) in
    ground (
      arith,
      ap (is_wanted fs) same,
      same_either_way d.query_id query_id q same_query,
      same_either_way d.user_id user_id u same_user,
    )

without_wanted :
    (b m x w : Bool) → (m ≡ true → b ≡ w) → (not b && m || x && not w) ≡ ((m || x) && not w)
without_wanted b m x w h = ground arith

dismissed-if :
    (q u f : String) (b : Bool) (d : FlagDismissal) (ds : List FlagDismissal)
    → is_dismissed q u f (if b then ds else d ∷ ds)
      ≡ (not b && (is_of q u d && d.row_fingerprint == f) || is_dismissed q u f ds)
unfolding is_dismissed
dismissed-if q u f true d ds = refl
dismissed-if q u f false d ds = refl

dismissed-left :
    (query_id user_id q u f : String) (fs : Option (List String)) (ds : List FlagDismissal)
    → is_dismissed q u f (dismissals_left query_id user_id fs ds)
      ≡ (is_dismissed q u f ds && not (query_id == q && user_id == u && is_wanted fs f))
unfolding is_dismissed dismissals_left
dismissed-left query_id user_id q u f fs [] = refl
dismissed-left query_id user_id q u f fs (d ∷ ds) =
    let b = is_of query_id user_id d && is_wanted fs d.row_fingerprint in
    rw
      (
        dismissed-if q u f b d (dismissals_left query_id user_id fs ds),
        dismissed-left query_id user_id q u f fs ds,
      )
      (without_wanted b (is_of q u d && d.row_fingerprint == f) (is_dismissed q u f ds)
        (query_id == q && user_id == u && is_wanted fs f) (wanted_mark query_id user_id q u f fs d))

length-left :
    (query_id user_id : String) (fs : Option (List String)) (ds : List FlagDismissal)
    → length (dismissals_left query_id user_id fs ds) ≤ length ds
unfolding dismissals_left
length-left query_id user_id fs [] = omega arith
length-left query_id user_id fs (d ∷ ds) = ground (arith, length-left query_id user_id fs ds)

-- Restoring clears this person's marks on this query, the given ones or all, leaves every other, and
-- returns how many marks it cleared.
pub restore_lem :
    (query_id user_id q u f : String) (fingerprints : Option (List String))
    (ds : List FlagDismissal)
    → (let (count, ds') = restore query_id user_id fingerprints ds in
        (is_dismissed q u f ds' ≡ (
          is_dismissed q u f ds && not (query_id == q && user_id == u && is_wanted fingerprints f)))
        × (count + length ds' ≡ length ds))
unfolding restore is_wanted is_listed
restore_lem query_id user_id q u f none ds = (
  dismissed-left query_id user_id q u f none ds,
  omega (arith, length-left query_id user_id none ds),
)
restore_lem query_id user_id q u f (some []) ds = (ground arith, omega arith)
restore_lem query_id user_id q u f (some (g ∷ fs)) ds = (
  dismissed-left query_id user_id q u f (some (g ∷ fs)) ds,
  omega (arith, length-left query_id user_id (some (g ∷ fs)) ds),
)

left-none :
    (query_id user_id : String) (fs : List String) (ds : List FlagDismissal)
    → ((f : String) → is_listed fs f ≡ true → is_dismissed query_id user_id f ds ≡ false)
    → dismissals_left query_id user_id (some fs) ds ≡ ds
unfolding is_dismissed dismissals_left is_of is_wanted
left-none query_id user_id fs [] h = refl
left-none query_id user_id fs (d ∷ ds) h = ground (
  arith,
  h d.row_fingerprint,
  left-none query_id user_id fs ds (λ f l. ground (arith, h f)),
  eq_refl d.row_fingerprint,
)

left-add :
    (query_id user_id : String) (fs gs : List String) (ds : List FlagDismissal)
    → ((f : String) → is_listed gs f ≡ true → is_listed fs f ≡ true)
    → dismissals_left query_id user_id (some fs) (add_dismissals query_id user_id gs ds)
      ≡ dismissals_left query_id user_id (some fs) ds
unfolding is_listed add_dismissals dismissals_left is_of is_wanted
left-add query_id user_id fs [] ds h = refl
left-add query_id user_id fs (g ∷ gs) ds h = ground (
  arith,
  h g,
  eq_refl g,
  eq_refl query_id,
  eq_refl user_id,
  left-add query_id user_id fs gs ds (λ f l. ground (arith, h f)),
)

abbrev is_nil : List String → Bool
is_nil [] = true
is_nil (f ∷ fs) = false

restore-some :
    (query_id user_id : String) (fs : List String) (c : ℕ) (ds es : List FlagDismissal)
    → dismissals_left query_id user_id (some fs) es ≡ ds
    → c + length ds ≡ length es
    → (is_nil fs ≡ true → es ≡ ds)
    → restore query_id user_id (some fs) es ≡ (c, ds)
unfolding restore
restore-some query_id user_id [] c ds es l e n = ground arith
restore-some query_id user_id (f ∷ fs) c ds es l e n = ground arith

add-nil :
    (stored : String → Bool) (existing : List String) (query_id user_id : String) (fs : List String)
    (ds : List FlagDismissal)
    → is_nil fs ≡ true
    → add_dismissals query_id user_id (fresh_of stored existing (from_keys [] fs)) ds ≡ ds
unfolding add_dismissals fresh_of from_keys
add-nil stored existing query_id user_id [] ds h = refl
add-nil stored existing query_id user_id (f ∷ fs) ds h = absurd (ground arith)

-- Restoring the rows that were just dismissed undoes it: of rows that this person had not dismissed,
-- the table is as before, and as many marks are cleared as were added.
pub restore-dismiss :
    {V : Type 0} (table : FlaggedTable V) (query_id user_id : String) (fingerprints : List String)
    (ds : List FlagDismissal)
    → ((f : String) → is_listed fingerprints f ≡ true → is_dismissed query_id user_id f ds ≡ false)
    → restore query_id user_id
        (some fingerprints)
        (dismiss table query_id user_id fingerprints ds).1
      ≡ ((dismiss table query_id user_id fingerprints ds).0, ds)
unfolding dismiss
restore-dismiss table query_id user_id fingerprints ds h =
    let stored = λ (f : String). is_some (Dict.get f (rows_of query_id table)) in
    let existing = dismissed_fingerprints query_id user_id ds in
    let fresh = fresh_of stored existing (from_keys [] fingerprints) in
    restore-some query_id user_id fingerprints (length fresh) ds _
      (left-add query_id user_id fingerprints fresh ds (λ f l. ground (
        arith,
        listed-fresh_of stored existing (from_keys [] fingerprints) f,
        listed-from_keys [] fingerprints f,
      ))
        ∙ left-none query_id user_id fingerprints ds h)
      (sym (length-add_dismissals query_id user_id fresh ds))
      (add-nil stored existing query_id user_id fingerprints ds)
