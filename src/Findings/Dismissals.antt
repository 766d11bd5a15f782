-- ===== src/Findings/Dismissals.antt =====
-- features/flag_rules/dismissals.py: each person's dismissals of the stored findings, and what is
-- left of a payload. `stamp` (`_stamp`, a sha256 of the sorted set) is a parameter.
use fraud_analyzer_engine.Prelude.{
  ℕ, ◌+◌, ◌-◌, String, Bool, true, false, not, ◌&&◌, Option, none, some, List, [], ◌∷◌, ◌==◌, texts,
  numbers, if◌then◌else◌, length, is_some,
}
use Prim.Native.String.{◌++◌ as append}
use fraud_analyzer_engine.Dict
use fraud_analyzer_engine.Findings.Defs.{FlaggedTable, Flagged, Flags, rows_of, is_listed}
use fraud_analyzer_engine.FlagRules.{RuleHit}

pub record FlagDismissal : Type 0 where
  pub query_id : String
  pub user_id : String
  pub row_fingerprint : String

-- a dismissal of this person on this query
unfoldable pub is_of : String → String → FlagDismissal → Bool
is_of query_id user_id d = d.query_id == query_id && d.user_id == user_id

unfoldable pub dismissed_fingerprints : String → String → List FlagDismissal → List String
unfolding is_of
dismissed_fingerprints query_id user_id [] = []
dismissed_fingerprints query_id user_id (d ∷ ds) =
    let rest = dismissed_fingerprints query_id user_id ds in
    if is_of query_id user_id d then d.row_fingerprint ∷ rest else rest

-- `list(dict.fromkeys(fingerprints))`, after those that were seen
unfoldable pub from_keys : List String → List String → List String
unfolding is_listed
from_keys seen [] = []
from_keys seen (f ∷ fs) =
    let rest = from_keys (f ∷ seen) fs in if is_listed seen f then from_keys seen fs else f ∷ rest

-- `[f for f in wanted if f in stored and f not in existing]`
unfoldable pub fresh_of : (String → Bool) → List String → List String → List String
unfolding is_listed
fresh_of stored existing [] = []
fresh_of stored existing (f ∷ wanted) =
    let rest = fresh_of stored existing wanted in
    if stored f && not (is_listed existing f) then f ∷ rest else rest

unfoldable pub add_dismissals :
    String → String → List String → List FlagDismissal → List FlagDismissal
add_dismissals query_id user_id [] ds = ds
add_dismissals query_id user_id (f ∷ fs) ds =
    record { query_id = query_id; user_id = user_id; row_fingerprint = f }
    ∷ add_dismissals query_id user_id fs ds

-- A request without fingerprints has none that is fresh: its early return is this one's result.
unfoldable pub dismiss :
    {V : Type 0}
    → FlaggedTable V
    → String
    → String
    → List String
    → List FlagDismissal
    → ℕ × List FlagDismissal
unfolding dismissed_fingerprints from_keys fresh_of add_dismissals
dismiss table query_id user_id fingerprints ds =
    let stored : String → Bool = λ f. is_some (Dict.get f (rows_of query_id table)) in
    let fresh =
      fresh_of stored (dismissed_fingerprints query_id user_id ds) (from_keys [] fingerprints) in
    (length fresh, add_dismissals query_id user_id fresh ds)

-- `row_fingerprint IN (...)`, if the statement has that condition
unfoldable pub is_wanted : Option (List String) → String → Bool
unfolding is_listed
is_wanted none f = true
is_wanted (some fingerprints) f = is_listed fingerprints f

unfoldable pub dismissals_left :
    String → String → Option (List String) → List FlagDismissal → List FlagDismissal
unfolding is_of is_wanted
dismissals_left query_id user_id fingerprints [] = []
dismissals_left query_id user_id fingerprints (d ∷ ds) =
    let rest = dismissals_left query_id user_id fingerprints ds in
    if is_of query_id user_id d && is_wanted fingerprints d.row_fingerprint then rest else d ∷ rest

-- with the number removed; `some []` is the early return, and removes nothing
unfoldable pub restore :
    String → String → Option (List String) → List FlagDismissal → ℕ × List FlagDismissal
unfolding dismissals_left
restore query_id user_id (some []) ds = (0, ds)
restore query_id user_id fingerprints ds =
    let left = dismissals_left query_id user_id fingerprints ds in (length ds - length left, left)

-- What `apply_dismissals` reads of a payload; a payload without flags has `none`.
pub record Payload (R : Type 0) : Type 0 where
  pub result : R
  pub data_hash : String
  pub flags : Option Flags

-- `row.get("fingerprint") in dismissed`
unfoldable pub is_cleared : List String → Flagged → Bool
unfolding is_listed
is_cleared dismissed row = elim row.fingerprint [ none ↦ false | some f ↦ is_listed dismissed f ]

unfoldable pub uncleared : List String → List Flagged → List Flagged
unfolding is_cleared
uncleared dismissed [] = []
uncleared dismissed (row ∷ rows) =
    let rest = uncleared dismissed rows in if is_cleared dismissed row then rest else row ∷ rest

-- `sum(1 for ids in surviving if rule["id"] in ids)`
unfoldable pub hits_of : String → List Flagged → ℕ
unfolding is_listed
hits_of rule_id [] = 0
hits_of rule_id (row ∷ rows) =
    let rest = hits_of rule_id rows in if is_listed row.rule_ids rule_id then 1 + rest else rest

unfoldable pub recount : List Flagged → List RuleHit → List RuleHit
unfolding hits_of
recount kept [] = []
recount kept (rule ∷ rules) = record rule { matched = hits_of rule.id kept } ∷ recount kept rules

unfoldable pub filtered_flags : List Flagged → Flags → Flags
unfolding recount
filtered_flags kept flags = record flags {
  rows = kept;
  rules = recount kept flags.rules;
  flagged_count = length kept;
  dismissed_count = some (length flags.rows - length kept);
}

module _ {R : Type 0} (stamp : List String → String) where
  unfoldable pub filter_payload : List String → Payload R → Flags → Payload R
  unfolding uncleared filtered_flags
  filter_payload dismissed payload flags =
      let kept = uncleared dismissed flags.rows in
      if length kept == length flags.rows then payload else record payload {
        data_hash = append payload.data_hash (append "+d" (stamp dismissed));
        flags = some (filtered_flags kept flags);
      }

  -- Without dismissals, or without rows, `kept` is all of the rows.
  unfoldable pub apply_dismissals : List String → Payload R → Payload R
  unfolding filter_payload
  apply_dismissals [] payload = payload
  apply_dismissals dismissed payload = elim payload.flags [
    | none ↦ payload
    | some flags ↦ filter_payload dismissed payload flags
  ]
