-- ===== src/Matching/Defs.antt =====
-- What a result's cell is, and when a list has it. Python's decimals and the texts of its numbers are
-- parameters. The keys of a list are a set; here they are a list, read by membership alone.
use Prim.Native.Nat.{Ordering}
use Prim.Native.String.{◌++◌ as ◌+++◌}
use fraud_analyzer_engine.Prelude.{
  ℕ, zero, suc, ◌+◌, ◌-◌, String, Bool, true, false, not, ◌&&◌, ◌||◌, Option, none, some, List, [],
  ◌∷◌, ◌++◌, ltb, ◌==◌, texts, numbers, if◌then◌else◌, length, any,
}
use fraud_analyzer_engine.Prelude.Text.{PyText}

pub data ℤ : Type 0 where
  pos negsuc : ℕ → ℤ

-- `i + n`
abbrev pub plus : ℤ → ℕ → ℤ
plus (pos a) n = pos (a + n)
plus (negsuc a) n = if ltb a n then pos (n - suc a) else negsuc (a - n)

-- A cell of a result that `to_jsonable` has made: decimals and dates are texts by then.
pub data Cell (F : Type 0) : Type 0 where
  null : Cell F
  bool : Bool → Cell F
  int : ℤ → Cell F
  float : F → Cell F
  text : String → Cell F

-- `Decimal.as_tuple()` of a finite decimal
pub record DecimalTuple : Type 0 where
  pub negative : Bool
  pub digits : List ℕ
  pub exponent : ℤ

-- Of decimals `D` and floats `F`: `Decimal(text)` where it gives a finite one, `Decimal(i)`,
-- `Decimal(str(x))` of a float that is neither NaN nor infinite, the comparison of finite decimals,
-- and `str`.
pub record Python (D F : Type 0) : Type 0 where
  pub py : PyText
  pub decimal_of_text : String → Option D
  pub decimal_of_int : ℤ → D
  pub decimal_of_float : F → Option D
  pub order : D → D → Ordering
  pub as_tuple : D → DecimalTuple
  pub str_int : ℤ → String
  pub str_float : F → String

abbrev pub is_zero : ℕ → Bool
is_zero n = n == 0

abbrev pub is_empty : List ℕ → Bool
is_empty [] = true
is_empty (d ∷ ds) = false

-- `.rstrip("0")`
unfoldable pub strip_zeros : List ℕ → List ℕ
strip_zeros [] = []
strip_zeros (d ∷ ds) =
    let rest = strip_zeros ds in if is_zero d && is_empty rest then [] else d ∷ rest

-- members of `_TRUE_WORDS`, of `_FALSE_WORDS`
unfoldable pub is_true_word : String → Bool
is_true_word t = t == "true" || t == "t" || t == "yes" || t == "y"

unfoldable pub is_false_word : String → Bool
is_false_word t = t == "false" || t == "f" || t == "no" || t == "n"

-- A member of a list's set: the key of an item, or a tuple of `_tokens`.
pub data Key : Type 0 where
  key : String → Key
  bool_token : Bool → Key
  word_token : Option Bool → Key

unfoldable pub same_bool : Bool → Bool → Bool
same_bool true b = b
same_bool false b = not b

unfoldable pub same_flag : Option Bool → Option Bool → Bool
unfolding same_bool
same_flag none none = true
same_flag (some a) (some b) = same_bool a b
same_flag _ _ = false

unfoldable pub same_key : Key → Key → Bool
unfolding same_bool same_flag
same_key (key a) (key b) = a == b
same_key (bool_token a) (bool_token b) = same_bool a b
same_key (word_token a) (word_token b) = same_flag a b
same_key _ _ = false

-- `k in members`
abbrev pub has : List Key → Key → Bool
has members k = any (λ m. same_key m k) members

module _ {D F : Type 0} (python : Python D F) where
  unfoldable pub as_number : Cell F → Option D
  as_number null = none
  as_number (bool b) = none
  as_number (int i) = some (python.decimal_of_int i)
  as_number (float x) = python.decimal_of_float x
  as_number (text s) =
      if python.py.strip s == "" then none else python.decimal_of_text (python.py.strip s)

  unfoldable pub as_bool : Cell F → Option Bool
  unfolding is_true_word is_false_word
  as_bool (bool b) = some b
  as_bool (int (pos n)) = if n == 0 then some false else if n == 1 then some true else none
  as_bool (text s) =
      let t = python.py.lower (python.py.strip s) in
      if is_true_word t || t == "1"
      then some true
      else if is_false_word t || t == "0"
      then some false
      else none
  as_bool _ = none

  unfoldable pub is_bool_word : Cell F → Bool
  unfolding is_true_word is_false_word
  is_bool_word (text s) =
      let t = python.py.lower (python.py.strip s) in is_true_word t || is_false_word t
  is_bool_word _ = false

  join_digits : List ℕ → String
  join_digits [] = ""
  join_digits (d ∷ ds) = python.str_int (pos d) +++ join_digits ds

  exponent_suffix : ℤ → String
  exponent_suffix (pos zero) = ""
  exponent_suffix (pos (suc n)) = "e" +++ python.str_int (pos (suc n))
  exponent_suffix (negsuc n) = "e" +++ python.str_int (negsuc n)

  -- the key of a number
  unfoldable pub decimal_key : DecimalTuple → String
  unfolding strip_zeros join_digits exponent_suffix
  decimal_key t =
      let stripped = strip_zeros t.digits in
      let exponent = plus t.exponent (length t.digits - length stripped) in
      if is_empty stripped
      then "0"
      else (if t.negative then "-" else "") +++ (join_digits stripped +++ exponent_suffix exponent)

  text_key : Cell F → String
  text_key null = ""
  text_key (bool b) = if b then "true" else "false"
  text_key (int i) = python.py.casefold (python.py.strip (python.str_int i))
  text_key (float x) = python.py.casefold (python.py.strip (python.str_float x))
  text_key (text s) = python.py.casefold (python.py.strip s)

  unfoldable pub list_key : Cell F → String
  unfolding as_number decimal_key text_key
  list_key value = elim (as_number value) [
    | some number ↦ decimal_key (python.as_tuple number)
    | none ↦ text_key value
  ]

  unfoldable pub tokens : String → List Key
  unfolding as_bool is_bool_word
  tokens item =
      elim (as_bool (text item)) [ none ↦ [] | some b ↦ bool_token b ∷ [] ]
      ++ (if is_bool_word (text item) then word_token (as_bool (text item)) ∷ [] else [])

  unfoldable pub members_from_items : List String → List Key
  unfolding list_key tokens
  members_from_items [] = []
  members_from_items (item ∷ items) =
      let rest = members_from_items items in
      if list_key (text item) == "" then rest else key (list_key (text item)) ∷ tokens item ++ rest

  unfoldable pub is_token : List Key → Cell F → Bool
  is_token members (bool b) = has members (bool_token b)
  is_token members cell =
      if is_bool_word cell then has members (word_token (as_bool cell)) else false

  unfoldable pub is_member : List Key → Cell F → Bool
  unfolding list_key is_token
  is_member members cell = if has members (key (list_key cell)) then true else is_token members cell
