-- ===== src/SavedQueries/Names.antt =====
-- The unique names of a table, and what each row of it has passed.
use fraud_analyzer_engine.Prelude.{
  ◌≡◌, refl, sym, String, Bool, true, false, not, ◌&&◌, ◌||◌, none, some, [], ◌∷◌, arith, ◌==◌,
  texts, eq_iff, eq_refl, inl, inr, Bool-cases, Option-cases,
}
use fraud_analyzer_engine.Dict.{Dict, get, set, remove, IsDistinct}
use fraud_analyzer_engine.SavedQueries.Defs.{StoredQuery}
use fraud_analyzer_engine.SavedQueries.Service.{collides, name_taken}
use fraud_analyzer_engine.SavedQueries.Visible.{keyed}

abbrev pub clash : StoredQuery → Dict StoredQuery → Bool
clash q [] = false
clash q ((k, r) ∷ queries) = collides q r || clash q queries

-- No two rows have one connection, one owner and one name.
abbrev pub unique : Dict StoredQuery → Bool
unique [] = true
unique ((k, q) ∷ queries) = not (clash q queries) && unique queries

collides_sym : (q r : StoredQuery) → collides q r ≡ true → collides r q ≡ true
unfolding collides
collides_sym q r h = elim (Option-cases q.owner_id) [
  | inl e ↦ ground (arith, e)
  | inr (owner, e) ↦ elim (Option-cases r.owner_id) [
    | inl f ↦ ground (arith, e, f)
    | inr (other, f) ↦ ground (
      arith,
      e,
      f,
      eq_iff owner other,
      eq_iff other owner,
      eq_iff q.connection_id r.connection_id,
      eq_iff r.connection_id q.connection_id,
      eq_iff q.name r.name,
      eq_iff r.name q.name,
    )
  ]
]

other_row : (same c n : Bool) → same ≡ false → (not same && c || n) ≡ false → (c || n) ≡ false
other_row same c n s h = ground arith

first_or : (c n m : Bool) → (c || n) ≡ false → (n ≡ false → m ≡ false) → (c || m) ≡ false
first_or false n m h f = f h
first_or true n m h f = h

absent_head :
    (k j : String) (r : StoredQuery) (queries : Dict StoredQuery)
    → get k ((j, r) ∷ queries) ≡ none
    → ((j == k) ≡ false) × (get k queries ≡ none)
unfolding get
absent_head k j r queries g = elim (Bool-cases (j == k)) [
  | inl e ↦ absurd (ground (arith, e))
  | inr e ↦ (e, ground (arith, e))
]

no_clash :
    (q : StoredQuery) (queries : Dict StoredQuery)
    → keyed queries ≡ true
    → get q.id queries ≡ none
    → name_taken q queries ≡ false
    → clash q queries ≡ false
unfolding name_taken
no_clash q [] k g n = refl
no_clash q ((j, r) ∷ queries) k g n =
    let (other, rest) = absent_head q.id j r queries g in
    let same : j ≡ r.id = (eq_iff j r.id).0 (ground arith) in
    first_or (collides q r) (name_taken q queries) (clash q queries)
      (other_row (r.id == q.id) (collides q r) (name_taken q queries) (rw (sym same) other) n)
      (λ (h : name_taken q queries ≡ false). no_clash q queries (ground arith) rest h)

clash-set :
    (r q : StoredQuery) (k : String) (queries : Dict StoredQuery)
    → clash r queries ≡ false
    → collides r q ≡ false
    → clash r (set k q queries) ≡ false
unfolding set
clash-set r q k [] c n = ground arith
clash-set r q k ((j, s) ∷ queries) c n = ground (arith, clash-set r q k queries)

pub set-unique :
    (q : StoredQuery) (queries : Dict StoredQuery)
    → keyed queries ≡ true
    → IsDistinct queries
    → unique queries ≡ true
    → name_taken q queries ≡ false
    → unique (set q.id q queries) ≡ true
unfolding set name_taken
set-unique q [] k d u n = refl
set-unique q ((j, r) ∷ queries) k d u n = elim (Bool-cases (j == q.id)) [
  | inl same ↦ ground (arith, no_clash q queries (ground arith) (at_key same) (ground arith))
  | inr other ↦ ground (
    arith,
    eq_iff j r.id,
    collides_sym r q,
    clash-set r q q.id queries,
    set-unique q queries (ground arith) d.1,
  )
]
  where
    at_key : (j == q.id) ≡ true → get q.id queries ≡ none
    at_key same = rw (sym ((eq_iff j q.id).0 same)) d.0

pub set-keyed :
    (q : StoredQuery) (queries : Dict StoredQuery)
    → keyed queries ≡ true
    → keyed (set q.id q queries) ≡ true
unfolding set
set-keyed q [] k = ground (arith, eq_refl q.id)
set-keyed q ((j, r) ∷ queries) k = ground (arith, eq_refl q.id, set-keyed q queries)

clash-remove :
    (r : StoredQuery) (k : String) (queries : Dict StoredQuery)
    → clash r queries ≡ false
    → clash r (remove k queries) ≡ false
unfolding remove
clash-remove r k [] c = refl
clash-remove r k ((j, s) ∷ queries) c = ground (arith, clash-remove r k queries)

pub remove-unique :
    (k : String) (queries : Dict StoredQuery)
    → unique queries ≡ true
    → unique (remove k queries) ≡ true
unfolding remove
remove-unique k [] u = refl
remove-unique k ((j, q) ∷ queries) u =
    ground (arith, clash-remove q k queries, remove-unique k queries)

pub remove-keyed :
    (k : String) (queries : Dict StoredQuery)
    → keyed queries ≡ true
    → keyed (remove k queries) ≡ true
unfolding remove
remove-keyed k [] h = refl
remove-keyed k ((j, q) ∷ queries) h = ground (arith, remove-keyed k queries)

-- A test that every row passes.
abbrev pub every : (StoredQuery → Bool) → Dict StoredQuery → Bool
every test [] = true
every test ((k, q) ∷ queries) = test q && every test queries

pub every-set :
    (test : StoredQuery → Bool) (k : String) (q : StoredQuery) (queries : Dict StoredQuery)
    → every test queries ≡ true
    → test q ≡ true
    → every test (set k q queries) ≡ true
unfolding set
every-set test k q [] e t = ground arith
every-set test k q ((j, r) ∷ queries) e t = ground (arith, every-set test k q queries)

pub every-remove :
    (test : StoredQuery → Bool) (k : String) (queries : Dict StoredQuery)
    → every test queries ≡ true
    → every test (remove k queries) ≡ true
unfolding remove
every-remove test k [] e = refl
every-remove test k ((j, r) ∷ queries) e = ground (arith, every-remove test k queries)

pub every-get :
    (test : StoredQuery → Bool) (k : String) (q : StoredQuery) (queries : Dict StoredQuery)
    → every test queries ≡ true
    → get k queries ≡ some q
    → test q ≡ true
unfolding get
every-get test k q [] e h = ground arith
every-get test k q ((j, r) ∷ queries) e h = ground (arith, every-get test k q queries)
