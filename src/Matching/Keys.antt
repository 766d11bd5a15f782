-- ===== src/Matching/Keys.antt =====
-- Keys that compare as the same are equal.
use fraud_analyzer_engine.Prelude.{
  ◌≡◌, refl, sym, ap, Bool, true, false, Option, none, some, arith, eq_iff,
}
use fraud_analyzer_engine.Matching.Defs.{
  Key, key, bool_token, word_token, same_bool, same_flag, same_key,
}

same_bool_eq : (a b : Bool) → same_bool a b ≡ true → a ≡ b
unfolding same_bool
same_bool_eq true b h = sym h
same_bool_eq false b h = ground arith

same_flag_eq : (a b : Option Bool) → same_flag a b ≡ true → a ≡ b
unfolding same_flag
same_flag_eq none none h = refl
same_flag_eq none (some b) h = absurd (ground arith)
same_flag_eq (some a) none h = absurd (ground arith)
same_flag_eq (some a) (some b) h = ap some (same_bool_eq a b h)

pub same_key_eq : (j k : Key) → same_key j k ≡ true → j ≡ k
unfolding same_key
same_key_eq (key a) (key b) h = ap key ((eq_iff a b).0 h)
same_key_eq (key a) (bool_token b) h = absurd (ground arith)
same_key_eq (key a) (word_token b) h = absurd (ground arith)
same_key_eq (bool_token a) (key b) h = absurd (ground arith)
same_key_eq (bool_token a) (bool_token b) h = ap bool_token (same_bool_eq a b h)
same_key_eq (bool_token a) (word_token b) h = absurd (ground arith)
same_key_eq (word_token a) (key b) h = absurd (ground arith)
same_key_eq (word_token a) (bool_token b) h = absurd (ground arith)
same_key_eq (word_token a) (word_token b) h = ap word_token (same_flag_eq a b h)
