-- ===== src/Findings/Served.antt =====
-- What a reader is served of a payload whose rows they have dismissed in part.
use fraud_analyzer_engine.Prelude.{
  ◌≤◌, String, ◌≡◌, refl, ap, ◌∙◌, false, Option, none, some, List, [], ◌∷◌, arith, ◌==◌, texts,
  numbers, length, eq_iff, eq_refl, Bool-cases, Option-cases, inl, inr,
}
use Prim.Native.String.{len, ◌++◌ as append}
use text.Mathlib.TextPositions.{len-append}
use fraud_analyzer_engine.Findings.Defs.{Flagged, Flags, is_listed}
use fraud_analyzer_engine.Findings.Dismissals.{
  Payload, is_cleared, uncleared, filtered_flags, filter_payload, apply_dismissals,
}

abbrev pub rows_in : Option Flags → List Flagged
rows_in none = []
rows_in (some flags) = flags.rows

uncleared-le :
    (dismissed : List String) (rows : List Flagged)
    → length (uncleared dismissed rows) ≤ length rows
unfolding uncleared
uncleared-le dismissed [] = omega arith
uncleared-le dismissed (row ∷ rows) = ground (arith, uncleared-le dismissed rows)

uncleared-all :
    (dismissed : List String) (rows : List Flagged)
    → length (uncleared dismissed rows) ≡ length rows
    → uncleared dismissed rows ≡ rows
unfolding uncleared
uncleared-all dismissed [] h = refl
uncleared-all dismissed (row ∷ rows) h =
    ground (arith, uncleared-le dismissed rows, uncleared-all dismissed rows)

uncleared-nothing : (rows : List Flagged) → uncleared [] rows ≡ rows
unfolding uncleared is_cleared is_listed
uncleared-nothing [] = refl
uncleared-nothing (row ∷ rows) = elim (Option-cases row.fingerprint) [
  | inl n ↦ ground (arith, uncleared-nothing rows)
  | inr (f, e) ↦ ground (arith, uncleared-nothing rows)
]

pub uncleared-twice :
    (dismissed : List String) (rows : List Flagged)
    → uncleared dismissed (uncleared dismissed rows) ≡ uncleared dismissed rows
unfolding uncleared
uncleared-twice dismissed [] = refl
uncleared-twice dismissed (row ∷ rows) = ground (arith, uncleared-twice dismissed rows)

longer_hash : (h s : String) → (append h (append "+d" s) == h) ≡ false
longer_hash h s = elim (Bool-cases (append h (append "+d" s) == h)) [
  | inl e ↦ absurd (
      ground (
        arith,
        ap len ((eq_iff (append h (append "+d" s)) h).0 e),
        len-append h (append "+d" s),
        len-append "+d" s,
      ))
  | inr e ↦ e
]

module _ {R : Type 0} (stamp : List String → String) where
  filter-none :
      (dismissed : List String) (p : Payload R) (flags : Flags)
      → length (uncleared dismissed flags.rows) ≡ length flags.rows
      → filter_payload stamp dismissed p flags ≡ p
  unfolding filter_payload
  filter-none dismissed p flags h = ground arith

  filter-some :
      (dismissed : List String) (p : Payload R) (flags : Flags)
      → (length (uncleared dismissed flags.rows) == length flags.rows) ≡ false
      → filter_payload stamp dismissed p flags ≡ record p {
        data_hash = append p.data_hash (append "+d" (stamp dismissed));
        flags = some (filtered_flags (uncleared dismissed flags.rows) flags);
      }
  unfolding filter_payload
  filter-some dismissed p flags h = ground arith

  -- What a reader who dismissed the rows `dismissed` is served for the payload `p`: its rows are those
  -- of `p` that are not dismissed, the result is that of `p`, and the hash is that of `p` just when
  -- no row was left out.
  abbrev IsServed : List String → Payload R → Payload R → Type 0
  IsServed dismissed p served =
      (rows_in served.flags ≡ uncleared dismissed (rows_in p.flags))
      × (served.result ≡ p.result)
      × ((served.data_hash == p.data_hash)
          ≡ (length (uncleared dismissed (rows_in p.flags)) == length (rows_in p.flags)))

  filter_lem :
      (dismissed : List String) (p : Payload R) (flags : Flags)
      → p.flags ≡ some flags
      → IsServed dismissed p (filter_payload stamp dismissed p flags)
  unfolding filtered_flags
  filter_lem dismissed p flags e =
      elim (Bool-cases (length (uncleared dismissed flags.rows) == length flags.rows)) [
        | inl h ↦
            let same : length (uncleared dismissed flags.rows) ≡ length flags.rows = ground arith in
            simp
              (
                filter-none dismissed p flags same,
                e,
                uncleared-all dismissed flags.rows same,
                eq_refl p.data_hash,
              )
              (refl, refl, ground arith)
        | inr h ↦
            simp (filter-some dismissed p flags h, e, h, longer_hash p.data_hash (stamp dismissed))
              (refl, refl, refl)
      ]

  none-IsServed :
      (dismissed : List String) (p : Payload R) → p.flags ≡ none → IsServed dismissed p p
  unfolding uncleared
  none-IsServed dismissed p e = simp (e, eq_refl p.data_hash) (refl, refl, refl)

  nothing-IsServed : (p : Payload R) → IsServed [] p p
  nothing-IsServed p =
      simp (uncleared-nothing (rows_in p.flags), eq_refl p.data_hash) (refl, refl, ground arith)

  apply-none :
      (f : String) (fs : List String) (p : Payload R)
      → p.flags ≡ none
      → apply_dismissals stamp (f ∷ fs) p ≡ p
  unfolding apply_dismissals
  apply-none f fs p e = ground arith

  apply-some :
      (f : String) (fs : List String) (p : Payload R) (flags : Flags)
      → p.flags ≡ some flags
      → apply_dismissals stamp (f ∷ fs) p ≡ filter_payload stamp (f ∷ fs) p flags
  unfolding apply_dismissals
  apply-some f fs p flags e = ground arith

  apply-twice :
      (f : String) (fs : List String) (p : Payload R) (flags : Flags)
      → p.flags ≡ some flags
      → apply_dismissals stamp (f ∷ fs) (apply_dismissals stamp (f ∷ fs) p)
        ≡ apply_dismissals stamp (f ∷ fs) p
  unfolding filtered_flags
  apply-twice f fs p flags e =
      let applied = apply-some f fs p flags e in
      elim (Bool-cases (length (uncleared (f ∷ fs) flags.rows) == length flags.rows)) [
        | inl h ↦
            ap (apply_dismissals stamp (f ∷ fs))
              (applied ∙ filter-none (f ∷ fs) p flags (ground arith))
        | inr h ↦ rw (applied ∙ filter-some (f ∷ fs) p flags h) (
            apply-some f fs _ (filtered_flags (uncleared (f ∷ fs) flags.rows) flags) refl
            ∙ filter-none (f ∷ fs) _ (filtered_flags (uncleared (f ∷ fs) flags.rows) flags)
                (ap length (uncleared-twice (f ∷ fs) flags.rows)))
      ]

  -- A reader is served the result of the payload with the flagged rows that they did not dismiss, under
  -- another hash just when a row was left out; to filter it again changes nothing.
  pub apply_dismissals_lem :
      (dismissed : List String) (p : Payload R)
      → IsServed dismissed p (apply_dismissals stamp dismissed p)
        × (apply_dismissals stamp dismissed (apply_dismissals stamp dismissed p)
            ≡ apply_dismissals stamp dismissed p)
  unfolding apply_dismissals
  apply_dismissals_lem [] p = (nothing-IsServed p, refl)
  apply_dismissals_lem (f ∷ fs) p = elim (Option-cases p.flags) [
    | inl n ↦
        let applied = apply-none f fs p n in
        (rw applied (none-IsServed (f ∷ fs) p n), ap (apply_dismissals stamp (f ∷ fs)) applied)
    | inr (flags, e) ↦
        (rw (apply-some f fs p flags e) (filter_lem (f ∷ fs) p flags e), apply-twice f fs p flags e)
  ]
