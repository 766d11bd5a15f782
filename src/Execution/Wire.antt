-- ===== src/Execution/Wire.antt =====
-- What `to_jsonable` gives is JSON, and JSON it leaves as it is.
use fraud_analyzer_engine.Prelude.{
  String, ◌≡◌, refl, sym, ap, ◌∙◌, Bool, true, false, not, ◌&&◌, ◌||◌, ◌==◌, texts, if◌then◌else◌,
  arith, eq_iff, Bool-cases, inl, inr,
}
use fraud_analyzer_engine.Execution.Json.{
  Key, Value, Values, Items, Driver, is_key, set_item, str_key, to_jsonable, has_key, is_new_key,
  is_json, are_json, are_json_items, to_jsonables, to_items,
}

module _ {F O : Type 0} (driver : Driver F O) where
  has_key-set_item :
      (j k : String) (v : Value F O) (items : Items F O)
      → has_key j (set_item k v items) ≡ (k == j || has_key j items)
  unfolding has_key set_item is_key
  has_key-set_item j k v Items.end = refl
  has_key-set_item j k v (Items.item (Key.name i) w items) =
      ground (arith, has_key-set_item j k v items, eq_iff i k, eq_iff i j, eq_iff k j)
  has_key-set_item j k v (Items.item (Key.object o) w items) =
      ground (arith, has_key-set_item j k v items)

  set_item-json :
      (k : String) (v : Value F O) (items : Items F O)
      → is_json driver v ≡ true
      → are_json_items driver items ≡ true
      → are_json_items driver (set_item k v items) ≡ true
  unfolding is_json set_item is_new_key has_key is_key
  set_item-json k v Items.end h w = ground arith
  set_item-json k v (Items.item (Key.name i) x items) h w =
      ground
        (arith, set_item-json k v items h, has_key-set_item i k v items, eq_iff i k, eq_iff k i)
  set_item-json k v (Items.item (Key.object o) x items) h w = absurd (ground arith)

  json_of_not_finite :
      (x : F) → is_json driver (if driver.is_nonfinite x then Value.null else Value.float x) ≡ true
  unfolding is_json
  json_of_not_finite x = elim (Bool-cases (driver.is_nonfinite x)) [
    | inl h ↦ rw h refl
    | inr h ↦ rw h (rw h refl)
  ]

  mutual
    unfolding to_jsonable is_json

    json_value : (v : Value F O) → is_json driver (to_jsonable driver v) ≡ true
    json_value Value.null = refl
    json_value (Value.bool b) = refl
    json_value (Value.int n) = refl
    json_value (Value.text s) = refl
    json_value (Value.float x) = json_of_not_finite x
    json_value (Value.decimal o) = refl
    json_value (Value.datetime o) = refl
    json_value (Value.date o) = refl
    json_value (Value.time o) = refl
    json_value (Value.uuid o) = refl
    json_value (Value.bytes o) = refl
    json_value (Value.list values) = json_values values
    json_value (Value.dict items) = json_items items Items.end refl
    json_value (Value.other o) = refl

    json_values : (values : Values F O) → are_json driver (to_jsonables driver values) ≡ true
    json_values Values.nil = refl
    json_values (Values.cons v values) = ground (arith, json_value v, json_values values)

    json_items :
        (items done : Items F O)
        → are_json_items driver done ≡ true
        → are_json_items driver (to_items driver items done) ≡ true
    json_items Items.end done h = h
    json_items (Items.item k v items) done h =
        json_items items (set_item (str_key driver k) (to_jsonable driver v) done)
          (set_item-json (str_key driver k) (to_jsonable driver v) done (json_value v) h)

  append_items : Items F O → Items F O → Items F O
  append_items Items.end items = items
  append_items (Items.item k v done) items = Items.item k v (append_items done items)

  append_items-end : (items : Items F O) → append_items items Items.end ≡ items
  unfolding append_items
  append_items-end Items.end = refl
  append_items-end (Items.item k v items) = rw (append_items-end items) refl

  -- an item whose key is new goes to the end
  append_items-set_item :
      (k : String) (v : Value F O) (done items : Items F O)
      → has_key k done ≡ false
      → append_items (set_item k v done) items ≡ append_items done (Items.item (Key.name k) v items)
  unfolding append_items set_item has_key
  append_items-set_item k v Items.end items h = refl
  append_items-set_item k v (Items.item j w done) items h =
      ground (arith, append_items-set_item k v done items)

  has_key-append_items :
      (k : String) (done items : Items F O)
      → has_key k (append_items done items) ≡ (has_key k done || has_key k items)
  unfolding append_items has_key
  has_key-append_items k Items.end items = refl
  has_key-append_items k (Items.item j w done) items =
      ground (arith, has_key-append_items k done items)

  -- no key of the first is one of the second
  are_apart : Items F O → Items F O → Bool
  are_apart Items.end done = true
  are_apart (Items.item (Key.name k) v items) done = not (has_key k done) && are_apart items done
  are_apart (Items.item (Key.object o) v items) done = false

  are_apart-set_item :
      (k : String) (v : Value F O) (items done : Items F O)
      → has_key k items ≡ false
      → are_apart items done ≡ true
      → are_apart items (set_item k v done) ≡ true
  unfolding are_apart has_key is_key
  are_apart-set_item k v Items.end done n h = refl
  are_apart-set_item k v (Items.item (Key.name j) w items) done n h = ground (
    arith,
    are_apart-set_item k v items done,
    has_key-set_item j k v done,
    eq_iff j k,
    eq_iff k j,
  )
  are_apart-set_item k v (Items.item (Key.object o) w items) done n h = absurd (ground arith)

  are_apart-end :
      (items : Items F O) → are_json_items driver items ≡ true → are_apart items Items.end ≡ true
  unfolding are_apart has_key is_json is_new_key
  are_apart-end Items.end h = refl
  are_apart-end (Items.item (Key.name j) w items) h = ground (arith, are_apart-end items)
  are_apart-end (Items.item (Key.object o) w items) h = absurd (ground arith)

  finite_float :
      (x : F)
      → not (driver.is_nonfinite x) ≡ true
      → to_jsonable driver (Value.float x) ≡ Value.float x
  unfolding to_jsonable
  finite_float x h = ground arith

  mutual
    unfolding to_jsonable is_json is_new_key are_apart append_items

    same_value : (v : Value F O) → is_json driver v ≡ true → to_jsonable driver v ≡ v
    same_value Value.null h = refl
    same_value (Value.bool b) h = refl
    same_value (Value.int n) h = refl
    same_value (Value.text s) h = refl
    same_value (Value.float x) h = finite_float x h
    same_value (Value.decimal o) h = absurd (ground arith)
    same_value (Value.datetime o) h = absurd (ground arith)
    same_value (Value.date o) h = absurd (ground arith)
    same_value (Value.time o) h = absurd (ground arith)
    same_value (Value.uuid o) h = absurd (ground arith)
    same_value (Value.bytes o) h = absurd (ground arith)
    same_value (Value.list values) h = ap Value.list (same_values values h)
    same_value (Value.dict items) h =
        ap Value.dict (same_items items Items.end h (are_apart-end items h))
    same_value (Value.other o) h = absurd (ground arith)

    same_values :
        (values : Values F O) → are_json driver values ≡ true → to_jsonables driver values ≡ values
    same_values Values.nil h = refl
    same_values (Values.cons v values) h =
        rw (same_value v (ground arith), same_values values (ground arith)) refl

    same_items :
        (items done : Items F O)
        → are_json_items driver items ≡ true
        → are_apart items done ≡ true
        → to_items driver items done ≡ append_items done items
    same_items Items.end done h a = sym (append_items-end done)
    same_items (Items.item (Key.object o) v items) done h a = absurd (ground arith)
    same_items (Items.item (Key.name k) v items) done h a = rw (same_value v (ground arith)) (
        same_items items (set_item k v done) (ground arith)
          (are_apart-set_item k v items done (ground arith) (ground arith))
        ∙ append_items-set_item k v done items (ground arith))

  -- What goes on the wire is JSON: its floats are finite and the keys of its dictionaries are texts, each
  -- once; and what is JSON already stays as it is, so that to convert twice is to convert once.
  pub to_jsonable_lem :
      (v : Value F O)
      → (is_json driver (to_jsonable driver v) ≡ true)
        × (to_jsonable driver (to_jsonable driver v) ≡ to_jsonable driver v)
  to_jsonable_lem v = (json_value v, same_value (to_jsonable driver v) (json_value v))
