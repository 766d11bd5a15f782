-- ===== src/Tests/Findings.antt =====
-- Findings and dismissals of one query, with rows that are texts and are their own fingerprints.
use fraud_analyzer_engine.Prelude.{
  ℕ, ◌+◌, String, ◌≡◌, refl, sym, true, false, ◌&&◌, ◌||◌, none, some, List, [], ◌∷◌, arith,
  is_some, length, ◌==◌, texts, numbers, eq_iff,
}
use Prim.Native.String.{◌++◌ as ◌+++◌}
use fraud_analyzer_engine.Dict
use fraud_analyzer_engine.FlagRules.{FlagSeverity, RuleHit}
use fraud_analyzer_engine.Findings.{
  Flagged, Flags, FlaggedRow, FlaggedTable, FlagDismissal, Payload, rows_of, dismiss, restore,
  apply_dismissals, uncleared, is_listed, is_cleared,
}
use fraud_analyzer_engine.Findings.Cleared.{is_dismissed, is_once, dismiss_lem}
use fraud_analyzer_engine.Findings.Restored.{restore-dismiss}
use fraud_analyzer_engine.Findings.Served.{apply_dismissals_lem, rows_in}

abbrev itself : String → String
itself s = s

abbrev rule : RuleHit
rule = record { id = "r"; name = "large"; severity = FlagSeverity.high; matched = 1 }

abbrev flagged_at : ℕ → Flagged
flagged_at i = record { index = i; rule_ids = "r" ∷ []; fingerprint = none }

abbrev second_row : Flags
second_row = record {
  rows = flagged_at 1 ∷ [];
  rules = rule ∷ [];
  flagged_count = 1;
  dismissed_count = none;
  warnings = [];
}

abbrev first_found : FlaggedRow String
first_found = record {
  found = record {
    values = "b";
    columns = "c" ∷ [];
    rule_ids = [];
    rule_names = [];
    severity = FlagSeverity.low;
  };
  first_seen_at = 3;
  last_seen_at = 4;
}

-- "b" was found before, and "x" is not found again
abbrev before : FlaggedTable String
before = ("q", ("b", first_found) ∷ ("x", first_found) ∷ []) ∷ []

abbrev two_rows : List String
two_rows = "a" ∷ "b" ∷ []

abbrev of_ann : FlagDismissal
of_ann = record { query_id = "q"; user_id = "ann"; row_fingerprint = "x" }

abbrev wanted : List String
wanted = "b" ∷ "nothing" ∷ "b" ∷ []

-- one of the three is a finding that Ann has not dismissed
dismissed_once : (dismiss before "q" "ann" wanted (of_ann ∷ [])).0 ≡ 1
unfolding dismiss Dict.get
dismissed_once = refl

one_row : is_once (of_ann ∷ []) ≡ true
unfolding is_once is_dismissed
one_row = refl

dismiss_lem_example :
    let (count, ds') = dismiss before "q" "ann" wanted (of_ann ∷ []) in
    (is_dismissed "q" "bob" "b" ds' ≡ (
      ◌==◌ {K = String} "q" "q"
        && ◌==◌ {K = String} "ann" "bob"
        && is_listed wanted "b"
        && is_some (Dict.get "b" (rows_of "q" before))
      || is_dismissed "q" "bob" "b" (of_ann ∷ [])))
    × (count + length (of_ann ∷ []) ≡ length ds')
    × (is_once ds' ≡ true)
dismiss_lem_example = dismiss_lem before "q" "ann" "q" "bob" "b" wanted (of_ann ∷ []) one_row

only_x :
    (f : String) → is_listed ("b" ∷ []) f ≡ true → is_dismissed "q" "ann" f (of_ann ∷ []) ≡ false
unfolding is_listed is_dismissed
only_x f h = let same : "b" ≡ f = ground (arith, eq_iff "b" f) in rw (sym same) refl

restore-dismiss_example :
    restore "q" "ann" (some ("b" ∷ [])) (dismiss before "q" "ann" ("b" ∷ []) (of_ann ∷ [])).1
    ≡ ((dismiss before "q" "ann" ("b" ∷ []) (of_ann ∷ [])).0, of_ann ∷ [])
restore-dismiss_example = restore-dismiss before "q" "ann" ("b" ∷ []) (of_ann ∷ []) only_x

abbrev joined : List String → String
joined [] = ""
joined (s ∷ ss) = s +++ joined ss

abbrev payload : Payload ℕ
payload = record {
  result = 7;
  data_hash = "h";
  flags = some (record second_row {
    rows =
        record { index = 0; rule_ids = "r" ∷ []; fingerprint = some "a" }
        ∷ record { index = 1; rule_ids = "r" ∷ []; fingerprint = some "b" }
        ∷ [];
  });
}

served_hash : (apply_dismissals joined ("b" ∷ []) payload).data_hash ≡ "h+db"
unfolding apply_dismissals uncleared is_cleared is_listed
served_hash = refl

apply_dismissals_lem_example :
    let served = apply_dismissals joined ("b" ∷ []) payload in
    ((rows_in served.flags ≡ uncleared ("b" ∷ []) (rows_in payload.flags))
      × (served.result ≡ 7)
      × ((served.data_hash == "h") ≡ (
          length (uncleared ("b" ∷ []) (rows_in payload.flags)) == length (rows_in payload.flags))))
    × (apply_dismissals joined ("b" ∷ []) served ≡ served)
apply_dismissals_lem_example = apply_dismissals_lem joined ("b" ∷ []) payload
