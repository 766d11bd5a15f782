-- ===== src/Matching/Members.antt =====
-- What a list's set of keys says of its items.
use fraud_analyzer_engine.Prelude.{
  ℕ, zero, suc, ◌+◌, ◌-◌, ◌≤◌, String, ◌≡◌, refl, Bool, false, not, ◌&&◌, ◌||◌, Option, some, List,
  [], ◌∷◌, ◌++◌, arith, ◌==◌, texts, numbers, length, length-append, any, ◌∙◌, sym, Bool-cases, inl,
  inr,
}
use fraud_analyzer_engine.Matching.Defs.{
  ℤ, pos, negsuc, plus, Cell, null, bool, int, float, text, Python, Key, key, bool_token,
  word_token, strip_zeros, same_flag, same_key, has, as_number, as_bool, is_bool_word, decimal_key,
  list_key, tokens, members_from_items, is_member, is_token,
}

abbrev pub zeros : ℕ → List ℕ
zeros zero = []
zeros (suc n) = 0 ∷ zeros n

strip_zeros-zeros : (n : ℕ) → strip_zeros (zeros n) ≡ []
unfolding strip_zeros
strip_zeros-zeros zero = refl
strip_zeros-zeros (suc n) = ground (arith, strip_zeros-zeros n)

strip_zeros-append : (ds : List ℕ) (n : ℕ) → strip_zeros (ds ++ zeros n) ≡ strip_zeros ds
unfolding strip_zeros
strip_zeros-append [] n = strip_zeros-zeros n
strip_zeros-append (d ∷ ds) n = rw (strip_zeros-append ds n) refl

length-zeros : (n : ℕ) → length (zeros n) ≡ n
length-zeros zero = refl
length-zeros (suc n) = omega (arith, length-zeros n)

length-strip_zeros-le : (ds : List ℕ) → length (strip_zeros ds) ≤ length ds
unfolding strip_zeros
length-strip_zeros-le [] = omega arith
length-strip_zeros-le (d ∷ ds) = ground (arith, length-strip_zeros-le ds)

plus_add : (e : ℤ) (a b : ℕ) → plus (plus e a) b ≡ plus e (a + b)
plus_add (pos e) a b = ground arith
plus_add (negsuc e) a b = ground arith

module _ {D F : Type 0} (python : Python D F) where
  decimal_key-zeros :
      (negative : Bool) (ds : List ℕ) (e : ℤ) (n : ℕ)
      → decimal_key python (record { negative = negative; digits = ds ++ zeros n; exponent = e })
        ≡ decimal_key python (record { negative = negative; digits = ds; exponent = plus e n })
  unfolding decimal_key
  decimal_key-zeros negative ds e n =
      let more : length (ds ++ zeros n) - length (strip_zeros ds)
          ≡ n + (length ds - length (strip_zeros ds)) =
        omega (arith, length-append ds (zeros n), length-zeros n, length-strip_zeros-le ds) in
      rw (strip_zeros-append ds n, more, plus_add e n (length ds - length (strip_zeros ds))) refl

  -- Cells that are one number with more or fewer trailing zeros have one key: 2, 2.0 and "2.00".
  pub list_key-zeros :
      (a b : Cell F) (x y : D) (negative : Bool) (ds : List ℕ) (e : ℤ) (n : ℕ)
      → as_number python a ≡ some x
      → as_number python b ≡ some y
      → python.as_tuple x ≡ record { negative = negative; digits = ds; exponent = plus e n }
      → python.as_tuple y ≡ record { negative = negative; digits = ds ++ zeros n; exponent = e }
      → list_key python a ≡ list_key python b
  unfolding list_key
  list_key-zeros a b x y negative ds e n p q r s =
      rw (list_key, p, q, r, s) (sym (decimal_key-zeros negative ds e n))

  -- How one item of a list has a cell as the same boolean.
  unfoldable pub has_token : String → Cell F → Bool
  has_token item (bool b) = same_flag (as_bool python (text item)) (some b)
  has_token item (text s) =
      is_bool_word python (text s)
      && is_bool_word python (text item)
      && same_flag (as_bool python (text item)) (as_bool python (text s))
  has_token item _ = false

  -- How one item of a list has a cell: by its key, or as the same boolean.
  abbrev pub item_matches : String → Cell F → Bool
  item_matches item cell =
      list_key python (text item) == list_key python cell || has_token item cell

  -- not skipped as blank
  abbrev pub is_kept : String → Bool
  is_kept item = not (list_key python (text item) == "")

  any-append : (p : Key → Bool) (xs ys : List Key) → any p (xs ++ ys) ≡ (any p xs || any p ys)
  any-append p [] ys = refl
  any-append p (x ∷ xs) ys = rw (any-append p xs ys) (ground arith)

  pub has-members :
      (k : Key) (item : String) (items : List String)
      → has (members_from_items python (item ∷ items)) k ≡ (
          is_kept item
            && (same_key (key (list_key python (text item))) k || has (tokens python item) k)
          || has (members_from_items python items) k)
  unfolding members_from_items
  has-members k item items =
      ground (
        arith,
        any-append (λ m. same_key m k) (tokens python item) (members_from_items python items),
      )

  has-tokens-key : (item k : String) → has (tokens python item) (key k) ≡ false
  unfolding tokens same_key
  has-tokens-key item k = ground arith

  same_flag-some :
      (b c : Bool) → same_key (bool_token b) (bool_token c) ≡ same_flag (some b) (some c)
  unfolding same_key same_flag
  same_flag-some b c = refl

  has-tokens-bool :
      (item : String) (b : Bool)
      → has (tokens python item) (bool_token b) ≡ same_flag (as_bool python (text item)) (some b)
  unfolding tokens same_key same_flag
  has-tokens-bool item b = ground arith

  has-tokens-word :
      (item : String) (w : Option Bool)
      → has (tokens python item) (word_token w)
        ≡ (is_bool_word python (text item) && same_flag (as_bool python (text item)) w)
  unfolding tokens same_key same_flag
  has-tokens-word item w = ground arith

  -- both steps of `is_member`
  is_member-either :
      (members : List Key) (cell : Cell F)
      → is_member python members cell
        ≡ (has members (key (list_key python cell)) || is_token python members cell)
  unfolding is_member
  is_member-either members cell = ground arith

  is_token-members_text :
      (item : String) (items : List String) (s : String)
      → is_token python (members_from_items python (item ∷ items)) (text s) ≡ (
          is_kept item && has_token item (text s)
          || is_token python (members_from_items python items) (text s))
  unfolding is_token same_key has_token
  is_token-members_text item items s = elim (Bool-cases (is_bool_word python (text s))) [
    | inl w ↦
        rw
          (
            w,
            has-members (word_token (as_bool python (text s))) item items,
            has-tokens-word item (as_bool python (text s)),
          )
          refl
    | inr w ↦ rw w (ground arith)
  ]

  is_token-members :
      (item : String) (items : List String) (cell : Cell F)
      → is_token python (members_from_items python (item ∷ items)) cell ≡ (
          is_kept item && has_token item cell
          || is_token python (members_from_items python items) cell)
  unfolding is_token same_key has_token is_bool_word
  is_token-members item items (bool b) =
      ground (arith, has-members (bool_token b) item items, has-tokens-bool item b)
  is_token-members item items (text s) = is_token-members_text item items s
  is_token-members item items null = ground arith
  is_token-members item items (int i) = ground arith
  is_token-members item items (float x) = ground arith

  is_token-nobody : (cell : Cell F) → is_token python [] cell ≡ false
  unfolding is_token is_bool_word
  is_token-nobody (bool b) = refl
  is_token-nobody (text s) = ground arith
  is_token-nobody null = refl
  is_token-nobody (int i) = refl
  is_token-nobody (float x) = refl

  same_keys : (j k : String) → same_key (key j) (key k) ≡ j == k
  unfolding same_key
  same_keys j k = refl

  members-nil : members_from_items python [] ≡ []
  unfolding members_from_items
  members-nil = refl

  merge :
      (kept by_key by_token keys toks rest : Bool)
      → (keys || toks) ≡ rest
      → (kept && (by_key || false) || keys || (kept && by_token || toks))
        ≡ (kept && (by_key || by_token) || rest)
  merge kept by_key by_token keys toks rest e = rw (← e) (ground arith)

  -- A cell is in a list exactly if an item that is not blank has it, by the key they share or as the
  -- same boolean: the order of the items and repetitions do not matter.
  pub is_member-items :
      (items : List String) (cell : Cell F)
      → is_member python (members_from_items python items) cell
        ≡ any (λ item. is_kept item && item_matches item cell) items
  is_member-items [] cell = rw members-nil (is_member-either [] cell ∙ is_token-nobody cell)
  is_member-items (item ∷ items) cell =
      rw
        (
          is_member-either (members_from_items python (item ∷ items)) cell,
          has-members (key (list_key python cell)) item items,
          has-tokens-key item (list_key python cell),
          is_token-members item items cell,
          same_keys (list_key python (text item)) (list_key python cell),
        )
        (merge (is_kept item) (list_key python (text item) == list_key python cell)
          (has_token item cell) (has (members_from_items python items) (key (list_key python cell)))
          (is_token python (members_from_items python items) cell)
          (any (λ item. is_kept item && item_matches item cell) items)
          (sym (is_member-either (members_from_items python items) cell)
            ∙ is_member-items items cell))
