-- ===== src/Prelude/Text.antt =====
-- What the program uses of Python's `str`. Case and white space are those of Unicode, whose tables
-- are not part of the program: `PyText` stands for the methods that read them.
use Prim.Native.Char.{Char, code}
use Prim.Native.Nat.{ℕ, ◌-◌}
use Prim.Native.String.{String, len, slice}
use mathlib.Core.Bool.{Bool, ◌&&◌}
use mathlib.Core.List.{List, [], ◌∷◌}
use text.Mathlib.Text.{find?}
use fraud_analyzer_engine.Prelude.Tests.{leb, is_some, if◌then◌else◌, ◌==◌, texts, numbers}

pub record PyText : Type 0 where
  pub strip : String → String
  pub lower : String → String
  pub casefold : String → String
  pub upper : String → String

-- `part in s`
unfoldable pub contains : String → String → Bool
contains s part = is_some (find? s part)

-- `s.endswith(tail)`
unfoldable pub ends_with : String → String → Bool
ends_with s tail = leb (len tail) (len s) && slice s (len s - len tail) (len s) == tail

-- `s.split(sep)[0]`, `s.partition(sep)[0]` for a separator of one character
unfoldable pub before : ℕ → String → String
before sep String.[] = ""
before sep (String.◌∷◌ c s) =
    let rest = before sep s in if code c == sep then "" else String.◌∷◌ c rest

-- `s.partition(sep)[2]`
unfoldable pub after : ℕ → String → String
after sep String.[] = ""
after sep (String.◌∷◌ c s) = if code c == sep then s else after sep s

push_char : Char → List String → List String
push_char c [] = String.◌∷◌ c "" ∷ []
push_char c (part ∷ parts) = String.◌∷◌ c part ∷ parts

-- `s.split(sep)` for a separator of one character
unfoldable pub split : ℕ → String → List String
unfolding push_char
split sep String.[] = "" ∷ []
split sep (String.◌∷◌ c s) =
    let parts = split sep s in if code c == sep then "" ∷ parts else push_char c parts

-- `s.lstrip(chars)`, for the characters that a test picks
unfoldable pub lstrip_chars : (ℕ → Bool) → String → String
lstrip_chars picked String.[] = ""
lstrip_chars picked (String.◌∷◌ c s) =
    let rest = lstrip_chars picked s in if picked (code c) then rest else String.◌∷◌ c s

keep_char : (ℕ → Bool) → Char → String → String
keep_char picked c String.[] = if picked (code c) then "" else String.◌∷◌ c ""
keep_char picked c (String.◌∷◌ d s) = String.◌∷◌ c (String.◌∷◌ d s)

-- `s.rstrip(chars)`
unfoldable pub rstrip_chars : (ℕ → Bool) → String → String
unfolding keep_char
rstrip_chars picked String.[] = ""
rstrip_chars picked (String.◌∷◌ c s) = keep_char picked c (rstrip_chars picked s)

-- `s.strip(chars)`
unfoldable pub strip_chars : (ℕ → Bool) → String → String
unfolding lstrip_chars rstrip_chars
strip_chars picked s = rstrip_chars picked (lstrip_chars picked s)
