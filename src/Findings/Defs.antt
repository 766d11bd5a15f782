-- ===== src/Findings/Defs.antt =====
-- The stored findings of flagged_rows.py. The table has one row to a query and a fingerprint: it is
-- kept as the rows of each query, by fingerprint. A row's values are of a parameter type, and
-- `row_fingerprint` (a sha256 of their JSON) is a parameter.
use fraud_analyzer_engine.Prelude.{
  ℕ, ◌-◌, String, Bool, Option, none, some, List, [], ◌∷◌, ◌++◌, ltb, ◌==◌, texts, if◌then◌else◌,
  length, get_elem?, is_some, any,
}
use fraud_analyzer_engine.Dict
use fraud_analyzer_engine.Dict.{Dict}
use fraud_analyzer_engine.FlagRules.{FlagSeverity, RuleHit, Warning}

-- `flags["rows"]`: where the row is, the rules that caught it, and its fingerprint if it has one
pub record Flagged : Type 0 where
  pub index : ℕ
  pub rule_ids : List String
  pub fingerprint : Option String

-- The flag outcome of a payload, as `as_dict` has it.
pub record Flags : Type 0 where
  pub rows : List Flagged
  pub rules : List RuleHit
  pub flagged_count : ℕ
  pub dismissed_count : Option ℕ
  pub warnings : List Warning

-- an entry of `matched`
pub record Found (V : Type 0) : Type 0 where
  pub values : V
  pub columns : List String
  pub rule_ids : List String
  pub rule_names : List String
  pub severity : FlagSeverity

pub record FlaggedRow (V : Type 0) : Type 0 where
  pub found : Found V
  pub first_seen_at : ℕ
  pub last_seen_at : ℕ

abbrev pub FlaggedTable : Type 0 → Type 0
FlaggedTable V = Dict (Dict (FlaggedRow V))

abbrev pub or_empty : {V : Type 0} → Option (Dict V) → Dict V
or_empty none = []
or_empty (some d) = d

-- the findings of a query
abbrev pub rows_of : {V : Type 0} → String → FlaggedTable V → Dict (FlaggedRow V)
rows_of query_id table = or_empty (Dict.get query_id table)

-- `SEVERITY_ORDER`
unfoldable pub severity_order : FlagSeverity → ℕ
severity_order FlagSeverity.low = 0
severity_order FlagSeverity.medium = 1
severity_order FlagSeverity.high = 2

-- the loop of `_worst`
worst_from : FlagSeverity → List FlagSeverity → FlagSeverity
unfolding severity_order
worst_from best [] = best
worst_from best (candidate ∷ rest) =
    worst_from (if ltb (severity_order best) (severity_order candidate) then candidate else best)
      rest

unfoldable pub worst : List FlagSeverity → FlagSeverity
unfolding worst_from
worst = worst_from FlagSeverity.low

-- `[d[i] for i in ids if i in d]`
unfoldable pub look_up_all : {A : Type 0} → Dict A → List String → List A
look_up_all d [] = []
look_up_all d (i ∷ ids) =
    let rest = look_up_all d ids in elim (Dict.get i d) [ none ↦ rest | some a ↦ a ∷ rest ]

rule_names : List RuleHit → Dict String → Dict String
rule_names [] d = d
rule_names (rule ∷ rules) d = rule_names rules (Dict.set rule.id rule.name d)

rule_severities : List RuleHit → Dict FlagSeverity → Dict FlagSeverity
rule_severities [] d = d
rule_severities (rule ∷ rules) d = rule_severities rules (Dict.set rule.id rule.severity d)

-- `flagged.get("fingerprint") or computed`
unfoldable pub fingerprint_or : Option String → String → String
fingerprint_or none computed = computed
fingerprint_or (some f) computed = if f == "" then computed else f

module _ {V : Type 0} (row_fingerprint : V → String) where
  -- one round of the loop that fills `matched`
  unfoldable pub match_row :
      List String → List V → List RuleHit → Flagged → Dict (Found V) → Dict (Found V)
  unfolding worst look_up_all rule_names rule_severities fingerprint_or
  match_row columns rows rules flagged matched = elim (get_elem? rows flagged.index) [
    | none ↦ matched
    | some values ↦
        Dict.set (fingerprint_or flagged.fingerprint (row_fingerprint values))
          (record {
            values = values;
            columns = columns;
            rule_ids = flagged.rule_ids;
            rule_names = look_up_all (rule_names rules []) flagged.rule_ids;
            severity = worst (look_up_all (rule_severities rules []) flagged.rule_ids);
          })
          matched
  ]

  unfoldable pub match_rows :
      List String → List V → List RuleHit → List Flagged → Dict (Found V) → Dict (Found V)
  unfolding match_row
  match_rows columns rows rules [] matched = matched
  match_rows columns rows rules (flagged ∷ rest) matched =
      match_rows columns rows rules rest (match_row columns rows rules flagged matched)

-- The stored rows that are found again, refreshed; the others are deleted.
unfoldable pub kept_rows :
    {V : Type 0} → ℕ → Dict (Found V) → Dict (FlaggedRow V) → Dict (FlaggedRow V)
kept_rows now matched [] = []
kept_rows now matched ((f, row) ∷ existing) =
    let rest = kept_rows now matched existing in
    elim (Dict.get f matched) [
      | none ↦ rest
      | some found ↦ (f, record row { found = found; last_seen_at = now }) ∷ rest
    ]

-- what was found and is not stored yet
unfoldable pub new_rows :
    {V : Type 0} → ℕ → Dict (FlaggedRow V) → Dict (Found V) → Dict (FlaggedRow V)
new_rows now existing [] = []
new_rows now existing ((f, found) ∷ matched) =
    let rest = new_rows now existing matched in
    if is_some (Dict.get f existing)
    then rest
    else (f, record { found = found; first_seen_at = now; last_seen_at = now }) ∷ rest

unfoldable pub sync_rows :
    {V : Type 0} → ℕ → Dict (Found V) → Dict (FlaggedRow V) → Dict (FlaggedRow V)
unfolding kept_rows new_rows
sync_rows now matched existing = kept_rows now matched existing ++ new_rows now existing matched

-- with the number of rows that it returns
unfoldable pub sync :
    {V : Type 0}
    → (V → String)
    → ℕ
    → String
    → List String
    → List V
    → Flags
    → FlaggedTable V
    → ℕ × FlaggedTable V
unfolding match_rows sync_rows
sync row_fingerprint now query_id columns rows flags table =
    let matched = match_rows row_fingerprint columns rows flags.rules flags.rows [] in
    (length matched, Dict.set query_id (sync_rows now matched (rows_of query_id table)) table)

-- `row_fingerprint IN (...)`
unfoldable pub is_listed : List String → String → Bool
is_listed fingerprints f = any (λ g. g == f) fingerprints

unlisted_rows : {V : Type 0} → List String → Dict (FlaggedRow V) → Dict (FlaggedRow V)
unfolding is_listed
unlisted_rows fingerprints [] = []
unlisted_rows fingerprints ((f, row) ∷ d) =
    let rest = unlisted_rows fingerprints d in
    if is_listed fingerprints f then rest else (f, row) ∷ rest

-- with the number of rows deleted; `none` is every finding of the query
unfoldable pub delete_rows :
    {V : Type 0} → String → Option (List String) → FlaggedTable V → ℕ × FlaggedTable V
unfolding unlisted_rows
delete_rows query_id none table = (length (rows_of query_id table), Dict.set query_id [] table)
delete_rows query_id (some fingerprints) table =
    let kept = unlisted_rows fingerprints (rows_of query_id table) in
    (length (rows_of query_id table) - length kept, Dict.set query_id kept table)
