-- ===== src/SqlGuard/Lexing.antt =====
-- What `_UNICODE_ESCAPE_LITERAL` finds, described by where it stands in the text.
use Prim.Native.Char.{Char, code}
use Prim.Native.String.{String}
use fraud_analyzer_engine.Prelude.{
  ◌≡◌, refl, ap, ℕ, Bool, true, false, not, ◌&&◌, ◌||◌, arith, ◌==◌, numbers, inl, inr, ◌↔◌,
  Bool-cases,
}
use fraud_analyzer_engine.Prelude.Outcome.{is_ok}
use fraud_analyzer_engine.Prelude.Text.{contains}
use fraud_analyzer_engine.SqlGuard.Defs.{
  Guard, spaces_quote, amp_quote, unicode_escape, is_word, check_unambiguous_lexing,
  backslash_quote,
}

infixr 50 ◌<>◌
abbrev pub ◌<>◌ : String → String → String
String.[] <> t = t
(String.◌∷◌ c s) <> t = String.◌∷◌ c (s <> t)

abbrev pub is_u : Char → Bool
is_u c = code c == b'u' || code c == b'U'

abbrev pub is_mark : Char → Bool
is_mark c = code c == b'\'' || code c == b'"'

-- whether the last character is of a word
abbrev pub ends_in_word : Bool → String → Bool
ends_in_word after_word String.[] = after_word
ends_in_word after_word (String.◌∷◌ c s) = ends_in_word (is_word (code c)) s

abbrev pub all_chars : (ℕ → Bool) → String → Bool
all_chars p String.[] = true
all_chars p (String.◌∷◌ c s) = p (code c) && all_chars p s

module _ (g : Guard) where
  -- Behind what does not end in a character of a word: a `u`, an ampersand, white space and a
  -- quotation mark.
  pub data HasUnicodeEscape (after_word : Bool) (text : String) : Type 0 where
    escape :
        (before : String) (u amp : Char) (gap : String) (mark : Char) (after : String)
        → text ≡ before <> String.◌∷◌ u (String.◌∷◌ amp (gap <> String.◌∷◌ mark after))
        → ends_in_word after_word before ≡ false
        → is_u u ≡ true
        → (code amp == b'&') ≡ true
        → all_chars g.is_space gap ≡ true
        → is_mark mark ≡ true
        → HasUnicodeEscape after_word text

  spaces_quote-position :
      (s : String)
      → spaces_quote g s ≡ true
      → (gap : String) × (mark : Char) × (after : String) × (s ≡ gap <> String.◌∷◌ mark after)
        × (all_chars g.is_space gap ≡ true)
        × (is_mark mark ≡ true)
  unfolding spaces_quote
  spaces_quote-position String.[] h = ground arith
  spaces_quote-position (String.◌∷◌ c s) h = elim (Bool-cases (is_mark c)) [
    | inl m ↦ ("", c, s, refl, refl, m)
    | inr n ↦
        let (gap, mark, after, e, a, m) = spaces_quote-position s (ground arith) in
        (String.◌∷◌ c gap, mark, after, ap (String.◌∷◌ c) e, ground arith, m)
  ]

  position-spaces_quote :
      (gap : String) (mark : Char) (after : String)
      → all_chars g.is_space gap ≡ true
      → is_mark mark ≡ true
      → spaces_quote g (gap <> String.◌∷◌ mark after) ≡ true
  unfolding spaces_quote
  position-spaces_quote String.[] mark after a m = ground arith
  position-spaces_quote (String.◌∷◌ c gap) mark after a m =
      ground (arith, position-spaces_quote gap mark after)

  step :
      {after_word : Bool} (c : Char) {s : String}
      → HasUnicodeEscape (is_word (code c)) s
      → HasUnicodeEscape after_word (String.◌∷◌ c s)
  step c (escape before u amp gap mark after e w p q a m) =
      escape (String.◌∷◌ c before) u amp gap mark after (ap (String.◌∷◌ c) e) w p q a m

  here :
      (after_word : Bool) (c : Char) (s : String)
      → (not after_word && is_u c && amp_quote g s) ≡ true
      → HasUnicodeEscape after_word (String.◌∷◌ c s)
  unfolding amp_quote
  here after_word c String.[] h = ground arith
  here after_word c (String.◌∷◌ amp s) h =
      let (gap, mark, after, e, a, m) = spaces_quote-position s (ground arith) in
      escape "" c amp gap mark after (ap (λ t. String.◌∷◌ c (String.◌∷◌ amp t)) e) (ground arith)
        (ground arith) (ground arith) a m

  found-HasUnicodeEscape :
      (after_word : Bool) (text : String)
      → unicode_escape g after_word text ≡ true
      → HasUnicodeEscape after_word text
  unfolding unicode_escape
  found-HasUnicodeEscape after_word String.[] h = ground arith
  found-HasUnicodeEscape after_word (String.◌∷◌ c s) h =
      elim (Bool-cases (not after_word && is_u c && amp_quote g s)) [
        | inl this ↦ here after_word c s this
        | inr that ↦ step c (found-HasUnicodeEscape (is_word (code c)) s (ground arith))
      ]

  escape-found :
      (after_word : Bool) (before : String) (u amp : Char) (gap : String) (mark : Char)
      (after : String)
      → ends_in_word after_word before ≡ false
      → is_u u ≡ true
      → (code amp == b'&') ≡ true
      → all_chars g.is_space gap ≡ true
      → is_mark mark ≡ true
      → unicode_escape g after_word
          (before <> String.◌∷◌ u (String.◌∷◌ amp (gap <> String.◌∷◌ mark after)))
        ≡ true
  unfolding unicode_escape amp_quote
  escape-found after_word String.[] u amp gap mark after w p q a m =
      ground (arith, position-spaces_quote gap mark after a m)
  escape-found after_word (String.◌∷◌ c before) u amp gap mark after w p q a m =
      ground (arith, escape-found (is_word (code c)) before u amp gap mark after w p q a m)

  pub unicode_escape_lem :
      (text : String) → (unicode_escape g false text ≡ true) ↔ HasUnicodeEscape false text
  unicode_escape_lem text = (found-HasUnicodeEscape false text, λ h. back text h)
    where
      back : (text : String) → HasUnicodeEscape false text → unicode_escape g false text ≡ true
      back text (escape before u amp gap mark after e w p q a m) =
          rw e (escape-found false before u amp gap mark after w p q a m)

  -- No backslash before a quote, and no such literal.
  pub record IsUnambiguous (text : String) : Type 0 where
    pub no_backslash : contains text backslash_quote ≡ false
    pub no_escape : ¬ HasUnicodeEscape false text

  pub check_unambiguous_lexing-IsUnambiguous :
      (text : String) → (is_ok (check_unambiguous_lexing g text) ≡ true) ↔ IsUnambiguous text
  unfolding check_unambiguous_lexing
  check_unambiguous_lexing-IsUnambiguous text = (
    λ h. record {
      no_backslash = ground arith;
      no_escape = λ e. ground (arith, (unicode_escape_lem text).1 e);
    },
    λ u. elim (Bool-cases (unicode_escape g false text)) [
      | inl e ↦ elim (u.no_escape ((unicode_escape_lem text).0 e)) [ ]
      | inr n ↦ ground (arith, u.no_backslash)
    ],
  )
