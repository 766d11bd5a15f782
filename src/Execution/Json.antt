-- ===== src/Execution/Json.antt =====
-- The values of a driver, and what they are on the wire: `to_jsonable` of execution.py. A float and
-- the objects of a driver are of parameter types; what Python says of them is a record.
use fraud_analyzer_engine.Prelude.{
  String, Bool, true, false, not, ◌&&◌, ◌||◌, ◌==◌, texts, if◌then◌else◌,
}
use fraud_analyzer_engine.Matching.{ℤ}

pub data Key (O : Type 0) : Type 0 where
  name : String → Key O
  object : O → Key O

mutual
  pub data Value (F O : Type 0) : Type 0 where
    null : Value F O
    bool : Bool → Value F O
    int : ℤ → Value F O
    text : String → Value F O
    float : F → Value F O
    decimal datetime date time uuid bytes : O → Value F O
    list : Values F O → Value F O
    dict : Items F O → Value F O
    other : O → Value F O

  pub data Values (F O : Type 0) : Type 0 where
    nil : Values F O
    cons : Value F O → Values F O → Values F O

  pub data Items (F O : Type 0) : Type 0 where
    end : Items F O
    item : Key O → Value F O → Items F O → Items F O

-- NaN and the infinities of a float; `str`, `isoformat` and base64 of an object
pub record Driver (F O : Type 0) : Type 0 where
  pub is_nonfinite : F → Bool
  pub str : O → String
  pub isoformat : O → String
  pub base64 : O → String

unfoldable pub is_key : {O : Type 0} → String → Key O → Bool
is_key k (name j) = j == k
is_key k (object o) = false

module _ {F O : Type 0} where
  -- `d[k] = v` where the keys of `d` are texts
  unfoldable pub set_item : String → Value F O → Items F O → Items F O
  unfolding is_key
  set_item k v end = item (name k) v end
  set_item k v (item j w items) =
      if is_key k j then item j v items else item j w (set_item k v items)

  unfoldable pub str_key : Driver F O → Key O → String
  str_key driver (name k) = k
  str_key driver (object o) = driver.str o

  unfoldable mutual
    unfolding set_item str_key

    pub to_jsonable : Driver F O → Value F O → Value F O
    to_jsonable driver null = null
    to_jsonable driver (bool b) = bool b
    to_jsonable driver (int n) = int n
    to_jsonable driver (text s) = text s
    to_jsonable driver (float x) = if driver.is_nonfinite x then null else float x
    to_jsonable driver (decimal o) = text (driver.str o)
    to_jsonable driver (datetime o) = text (driver.isoformat o)
    to_jsonable driver (date o) = text (driver.isoformat o)
    to_jsonable driver (time o) = text (driver.isoformat o)
    to_jsonable driver (uuid o) = text (driver.str o)
    to_jsonable driver (bytes o) = text (driver.base64 o)
    to_jsonable driver (list values) = list (to_jsonables driver values)
    to_jsonable driver (dict items) = dict (to_items driver items end)
    to_jsonable driver (other o) = text (driver.str o)

    pub to_jsonables : Driver F O → Values F O → Values F O
    to_jsonables driver nil = nil
    to_jsonables driver (cons v values) = cons (to_jsonable driver v) (to_jsonables driver values)

    -- the comprehension, after the items of the second argument
    pub to_items : Driver F O → Items F O → Items F O → Items F O
    to_items driver end done = done
    to_items driver (item k v items) done =
        to_items driver items (set_item (str_key driver k) (to_jsonable driver v) done)

  unfoldable pub has_key : String → Items F O → Bool
  unfolding is_key
  has_key k end = false
  has_key k (item j v items) = is_key k j || has_key k items

  -- the key is a text that is not repeated
  unfoldable pub is_new_key : Key O → Items F O → Bool
  unfolding has_key
  is_new_key (name k) items = not (has_key k items)
  is_new_key (object o) items = false

  -- What `orjson.dumps` takes: floats are finite, and the keys of a dictionary texts, each once.
  unfoldable mutual
    unfolding is_new_key

    pub is_json : Driver F O → Value F O → Bool
    is_json driver null = true
    is_json driver (bool b) = true
    is_json driver (int n) = true
    is_json driver (text s) = true
    is_json driver (float x) = not (driver.is_nonfinite x)
    is_json driver (decimal o) = false
    is_json driver (datetime o) = false
    is_json driver (date o) = false
    is_json driver (time o) = false
    is_json driver (uuid o) = false
    is_json driver (bytes o) = false
    is_json driver (list values) = are_json driver values
    is_json driver (dict items) = are_json_items driver items
    is_json driver (other o) = false

    pub are_json : Driver F O → Values F O → Bool
    are_json driver nil = true
    are_json driver (cons v values) = is_json driver v && are_json driver values

    pub are_json_items : Driver F O → Items F O → Bool
    are_json_items driver end = true
    are_json_items driver (item k v items) =
        is_new_key k items && is_json driver v && are_json_items driver items
