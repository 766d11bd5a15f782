-- ===== src/Retention/Newest.antt =====
-- How many moments are past the one at a position of the list, newest first.
use fraud_analyzer_engine.Prelude.{
  ℕ, zero, suc, ◌+◌, ◌≤◌, ◌≡◌, refl, Bool, true, false, some, List, [], ◌∷◌, arith, ltb, leb, ◌==◌,
  numbers, if◌then◌else◌, length, get_elem?,
}
use fraud_analyzer_engine.Retention.Defs.{newest_first, place}

abbrev pub count_after : ℕ → List ℕ → ℕ
count_after c [] = 0
count_after c (t ∷ ts) = (if ltb c t then 1 else 0) + count_after c ts

abbrev pub count_at : ℕ → List ℕ → ℕ
count_at c [] = 0
count_at c (t ∷ ts) = (if t == c then 1 else 0) + count_at c ts

abbrev all_upto : ℕ → List ℕ → Bool
all_upto c [] = true
all_upto c (t ∷ ts) = if leb t c then all_upto c ts else false

abbrev sorted : List ℕ → Bool
sorted [] = true
sorted (t ∷ ts) = if all_upto t ts then sorted ts else false

all_upto-count_after : (c : ℕ) (ts : List ℕ) → all_upto c ts ≡ true → count_after c ts ≡ 0
all_upto-count_after c [] h = refl
all_upto-count_after c (t ∷ ts) h = ground (arith, all_upto-count_after c ts)

all_upto_trans : (c d : ℕ) (ts : List ℕ) → c ≤ d → all_upto c ts ≡ true → all_upto d ts ≡ true
all_upto_trans c d [] l h = refl
all_upto_trans c d (t ∷ ts) l h = ground (arith, all_upto_trans c d ts)

all_upto-place :
    (c t : ℕ) (ts : List ℕ) → t ≤ c → all_upto c ts ≡ true → all_upto c (place t ts) ≡ true
unfolding place
all_upto-place c t [] l h = ground arith
all_upto-place c t (u ∷ ts) l h = ground (arith, all_upto-place c t ts)

place-sorted : (t : ℕ) (ts : List ℕ) → sorted ts ≡ true → sorted (place t ts) ≡ true
unfolding place
place-sorted t [] h = ground arith
place-sorted t (u ∷ ts) h =
    ground (arith, place-sorted t ts, all_upto-place u t ts, all_upto_trans u t ts)

newest_first-sorted : (ts : List ℕ) → sorted (newest_first ts) ≡ true
unfolding newest_first
newest_first-sorted [] = refl
newest_first-sorted (t ∷ ts) = place-sorted t (newest_first ts) (newest_first-sorted ts)

count_after-place : (c t : ℕ) (ts : List ℕ) → count_after c (place t ts) ≡ count_after c (t ∷ ts)
unfolding place
count_after-place c t [] = refl
count_after-place c t (u ∷ ts) = ground (arith, count_after-place c t ts)

count_at-place : (c t : ℕ) (ts : List ℕ) → count_at c (place t ts) ≡ count_at c (t ∷ ts)
unfolding place
count_at-place c t [] = refl
count_at-place c t (u ∷ ts) = ground (arith, count_at-place c t ts)

length-place : (t : ℕ) (ts : List ℕ) → length (place t ts) ≡ suc (length ts)
unfolding place
length-place t [] = refl
length-place t (u ∷ ts) = ground (arith, length-place t ts)

count_after-newest_first :
    (c : ℕ) (ts : List ℕ) → count_after c (newest_first ts) ≡ count_after c ts
unfolding newest_first
count_after-newest_first c [] = refl
count_after-newest_first c (t ∷ ts) =
    ground (arith, count_after-place c t (newest_first ts), count_after-newest_first c ts)

count_at-newest_first : (c : ℕ) (ts : List ℕ) → count_at c (newest_first ts) ≡ count_at c ts
unfolding newest_first
count_at-newest_first c [] = refl
count_at-newest_first c (t ∷ ts) =
    ground (arith, count_at-place c t (newest_first ts), count_at-newest_first c ts)

pub length-newest_first : (ts : List ℕ) → length (newest_first ts) ≡ length ts
unfolding newest_first
length-newest_first [] = refl
length-newest_first (t ∷ ts) =
    ground (arith, length-place t (newest_first ts), length-newest_first ts)

sorted_position-le :
    (c : ℕ) (ts : List ℕ) (k : ℕ)
    → sorted ts ≡ true
    → get_elem? ts k ≡ some c
    → count_after c ts ≤ k
sorted_position-le c [] k s h = ground arith
sorted_position-le c (t ∷ ts) zero s h = ground (arith, all_upto-count_after t ts)
sorted_position-le c (t ∷ ts) (suc k) s h = ground (arith, sorted_position-le c ts k)

member-upto :
    (c t : ℕ) (ts : List ℕ) (k : ℕ) → all_upto t ts ≡ true → get_elem? ts k ≡ some c → c ≤ t
member-upto c t [] k a h = ground arith
member-upto c t (u ∷ ts) zero a h = ground arith
member-upto c t (u ∷ ts) (suc k) a h = ground (arith, member-upto c t ts k)

sorted_position-ge :
    (c : ℕ) (ts : List ℕ) (k : ℕ)
    → sorted ts ≡ true
    → get_elem? ts k ≡ some c
    → suc k ≤ count_after c ts + count_at c ts
sorted_position-ge c [] k s h = ground arith
sorted_position-ge c (t ∷ ts) zero s h = ground arith
sorted_position-ge c (t ∷ ts) (suc k) s h =
    ground (arith, sorted_position-ge c ts k, member-upto c t ts k)

-- At most `k` moments are past the one that stands behind the `k` newest,
pub count_after-le :
    (c : ℕ) (ts : List ℕ) (k : ℕ) → get_elem? (newest_first ts) k ≡ some c → count_after c ts ≤ k
count_after-le c ts k h = ground (
  arith,
  count_after-newest_first c ts,
  sorted_position-le c (newest_first ts) k (newest_first-sorted ts) h,
)

-- and with those at that moment they are more than `k`.
pub count_after-ge :
    (c : ℕ) (ts : List ℕ) (k : ℕ)
    → get_elem? (newest_first ts) k ≡ some c
    → suc k ≤ count_after c ts + count_at c ts
count_after-ge c ts k h = ground (
  arith,
  count_after-newest_first c ts,
  count_at-newest_first c ts,
  sorted_position-ge c (newest_first ts) k (newest_first-sorted ts) h,
)
