-- ===== src/Findings/Sync.antt =====
-- What a sync leaves in the table.
use fraud_analyzer_engine.Prelude.{
  ℕ, String, ◌≡◌, refl, Bool, false, Option, none, some, List, [], ◌∷◌, arith, ◌==◌, texts,
  if◌then◌else◌, get_elem?, eq_iff,
}
use fraud_analyzer_engine.Dict
use fraud_analyzer_engine.Dict.{Dict, IsDistinct, get-set, get-append}
use fraud_analyzer_engine.Findings.Defs.{
  Flagged, Flags, Found, FlaggedRow, FlaggedTable, rows_of, match_rows, kept_rows, new_rows,
  sync_rows, sync, fingerprint_or,
}

module _ {V : Type 0} where
  -- A finding of a run: kept with the time it was first seen, if it was stored, and new otherwise.
  abbrev pub synced : ℕ → Option (Found V) → Option (FlaggedRow V) → Option (FlaggedRow V)
  synced now none row = none
  synced now (some found) none =
      some (record { found = found; first_seen_at = now; last_seen_at = now })
  synced now (some found) (some row) =
      some (record { found = found; first_seen_at = row.first_seen_at; last_seen_at = now })

  get-kept_rows :
      (now : ℕ) (matched : Dict (Found V)) (existing : Dict (FlaggedRow V)) (f : String)
      → IsDistinct existing
      → Dict.get f (kept_rows now matched existing) ≡ elim (Dict.get f existing) [
        | none ↦ none
        | some row ↦ synced now (Dict.get f matched) (some row)
      ]
  unfolding kept_rows Dict.get
  get-kept_rows now matched [] f u = refl
  get-kept_rows now matched ((j, row) ∷ existing) f u =
      ground (arith, eq_iff j f, get-kept_rows now matched existing f u.1)

  get-new_rows :
      (now : ℕ) (matched : Dict (Found V)) (existing : Dict (FlaggedRow V)) (f : String)
      → IsDistinct matched
      → Dict.get f (new_rows now existing matched) ≡ elim (Dict.get f existing) [
        | none ↦ synced now (Dict.get f matched) none
        | some row ↦ none
      ]
  unfolding new_rows Dict.get
  get-new_rows now [] existing f u = ground arith
  get-new_rows now ((j, found) ∷ matched) existing f u =
      ground (arith, eq_iff j f, get-new_rows now matched existing f u.1)

  pub get-sync_rows :
      (now : ℕ) (matched : Dict (Found V)) (existing : Dict (FlaggedRow V)) (f : String)
      → IsDistinct matched
      → IsDistinct existing
      → Dict.get f (sync_rows now matched existing)
        ≡ synced now (Dict.get f matched) (Dict.get f existing)
  unfolding sync_rows
  get-sync_rows now matched existing f u w = ground (
    arith,
    get-append f (kept_rows now matched existing) (new_rows now existing matched),
    get-kept_rows now matched existing f w,
    get-new_rows now matched existing f u,
  )

  -- A row of the result that a rule flagged, of this fingerprint.
  abbrev pub finds : (V → String) → List V → String → Flagged → Bool
  finds fp rows f flagged = elim (get_elem? rows flagged.index) [
    | none ↦ false
    | some values ↦ fingerprint_or flagged.fingerprint (fp values) == f
  ]

rows_of-set :
    {V : Type 0} (q k : String) (d : Dict (FlaggedRow V)) (table : FlaggedTable V)
    → rows_of q (Dict.set k d table) ≡ (if k == q then d else rows_of q table)
rows_of-set q k d table = ground (arith, get-set k q d table)

pub sync-other :
    {V : Type 0} (fp : V → String) (now : ℕ) (query_id k : String) (columns : List String)
    (rows : List V) (flags : Flags) (table : FlaggedTable V)
    → (query_id == k) ≡ false
    → rows_of k (sync fp now query_id columns rows flags table).1 ≡ rows_of k table
unfolding sync
sync-other fp now query_id k columns rows flags table h =
    let matched = match_rows fp columns rows flags.rules flags.rows [] in
    ground (arith, rows_of-set k query_id (sync_rows now matched (rows_of query_id table)) table)
