-- ===== src/RenderedCache/Defs.antt =====
-- The operations of rendered_cache.py. `orjson.dumps` and `gzip.compress` are parameters, and so is
-- the byte budget, `rendered_cache_max_bytes` of the settings. A body of bytes is a list of
-- numbers.
use Prim.Native.String.{◌++◌ as ◌+++◌}
use text.Mathlib.Text.{starts_with}
use fraud_analyzer_engine.Prelude.{
  ℕ, zero, suc, ◌+◌, ◌/◌, ◌%◌, String, Bool, true, false, Option, none, some, List, [], ◌∷◌, ltb,
  if◌then◌else◌, length,
}
use fraud_analyzer_engine.Dict
use fraud_analyzer_engine.Dict.{Dict}
use fraud_analyzer_engine.Lru.{Held, empty, drop, admit, touch}

abbrev pub max_entries : ℕ
max_entries = 256

abbrev min_compress_bytes : ℕ
min_compress_bytes = 1024

pub record Rendered : Type 0 where
  pub body : List ℕ
  pub compressed : Bool

abbrev pub body_size : Rendered → ℕ
body_size r = length r.body

-- `_entries`, `_total_bytes`, `_hits` and `_misses`
pub record RenderedCache : Type 0 where
  pub held : Held Rendered
  pub hits : ℕ
  pub misses : ℕ

-- What encodes a response body of type `Body`.
pub record Codec (Body : Type 0) : Type 0 where
  pub dumps : Body → List ℕ
  pub compress : List ℕ → List ℕ

digit : ℕ → String
digit zero = "0"
digit (suc zero) = "1"
digit (suc (suc zero)) = "2"
digit (suc (suc (suc zero))) = "3"
digit (suc (suc (suc (suc zero)))) = "4"
digit (suc (suc (suc (suc (suc zero))))) = "5"
digit (suc (suc (suc (suc (suc (suc zero)))))) = "6"
digit (suc (suc (suc (suc (suc (suc (suc zero))))))) = "7"
digit (suc (suc (suc (suc (suc (suc (suc (suc zero)))))))) = "8"
digit _ = "9"

decimal_fuel : ℕ → ℕ → String
decimal_fuel zero n = ""
decimal_fuel (suc f) n =
    let rest = decimal_fuel f (n / 10) in if ltb n 10 then digit n else rest +++ digit (n % 10)

-- `str(n)`; a number has at most as many digits as its value, and one more
unfoldable pub decimal : ℕ → String
unfolding decimal_fuel digit
decimal n = decimal_fuel (suc n) n

int : Bool → String
int true = "1"
int false = "0"

or_empty : Option String → String
or_empty none = ""
or_empty (some s) = s

-- `executed_at` is given as its text
unfoldable pub key_for : String → String → ℕ → Bool → Option String → String
unfolding int or_empty decimal
key_for query_id data_hash poll_interval_ms from_cache executed_at =
    (query_id +++ "|")
    +++ (data_hash
        +++ ("|"
            +++ (decimal poll_interval_ms
                +++ ("|" +++ (int from_cache +++ ("|" +++ or_empty executed_at))))))

unfoldable pub get : String → RenderedCache → Option Rendered × RenderedCache
get key c = elim (Dict.get key c.held.entries) [
  | none ↦ (none, record c { misses = c.misses + 1 })
  | some found ↦ (some found, record c { hits = c.hits + 1; held = touch key found c.held })
]

unfoldable pub render : {Body : Type 0} → Codec Body → Body → Rendered
render codec body =
    let raw = codec.dumps body in
    if ltb (length raw) min_compress_bytes
    then record { body = raw; compressed = false }
    else record { body = codec.compress raw; compressed = true }

unfoldable pub store : ℕ → String → Rendered → RenderedCache → Rendered × RenderedCache
store budget key rendered c =
    let held = drop body_size key c.held in
    if ltb budget (body_size rendered)
    then (rendered, record c { held = held })
    else (rendered, record c { held = admit body_size budget max_entries key rendered held })

-- `build` is called on a miss only
unfoldable pub get_or_render :
    {Body : Type 0}
    → Codec Body
    → ℕ
    → String
    → (Unit {0} → Body)
    → RenderedCache
    → Rendered × RenderedCache
unfolding get
get_or_render codec budget key build c =
    let (found, c') = get key c in
    elim found [ some r ↦ (r, c') | none ↦ store budget key (render codec (build tt)) c' ]

-- `[k for k in _entries if k.startswith(prefix)]`
unfoldable pub matching_keys : String → Dict Rendered → List String
matching_keys prefix [] = []
matching_keys prefix ((k, r) ∷ d) =
    if starts_with k prefix then k ∷ matching_keys prefix d else matching_keys prefix d

-- the loop over those keys; each is there, so the `pop` does not raise
unfoldable pub drop_keys : List String → Held Rendered → Held Rendered
drop_keys [] s = s
drop_keys (k ∷ ks) s = drop_keys ks (drop body_size k s)

unfoldable pub invalidate_query : String → RenderedCache → RenderedCache
unfolding matching_keys drop_keys
invalidate_query query_id c = record c {
  held = drop_keys (matching_keys (query_id +++ "|") c.held.entries) c.held;
}

unfoldable pub clear : RenderedCache
clear = record { held = empty; hits = 0; misses = 0 }
