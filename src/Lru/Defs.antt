-- ===== src/Lru/Defs.antt =====
-- The state of a cache, and the steps on it.
use fraud_analyzer_engine.Prelude.{ℕ, ◌+◌, ◌-◌, String, none, some, []}
use fraud_analyzer_engine.Dict.{Dict, get, remove, put_last}
use fraud_analyzer_engine.Lru.Evict.{evict}

-- `_entries` and `_total_bytes`
pub record Held (V : Type 0) : Type 0 where
  pub entries : Dict V
  pub total_bytes : ℕ

abbrev pub empty : {V : Type 0} → Held V
empty = record { entries = []; total_bytes = 0 }

module _ {V : Type 0} (measure : V → ℕ) where
  -- remove one entry and give back its bytes
  unfoldable pub drop : String → Held V → Held V
  drop key s = elim (get key s.entries) [
    | none ↦ s
    | some v ↦ record { entries = remove key s.entries; total_bytes = s.total_bytes - measure v }
  ]

  -- `_entries[key] = v; _total_bytes += size; _entries.move_to_end(key)`, then the loop
  unfoldable pub admit : ℕ → ℕ → String → V → Held V → Held V
  admit budget max_entries key v s =
      let (d, bytes) =
        evict measure budget max_entries key (put_last key v s.entries)
          (s.total_bytes + measure v) in
      record { entries = d; total_bytes = bytes }

-- `_entries.move_to_end(key)` for the value found there
unfoldable pub touch : {V : Type 0} → String → V → Held V → Held V
touch key v s = record s { entries = put_last key v s.entries }
