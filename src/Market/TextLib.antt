-- ===== src/Market/TextLib.antt =====
-- What the program takes from Python's `str`, `re` and `hashlib`: operations of the model's
-- environment. Laws that a theorem needs of them are its named hypotheses.
use rafuk.Base.{ℕ, String, Bool, List, Option}
use rafuk.Base.Int.{ℤ}
use rafuk.Json.{Real}

pub record TextLib : Type 0 where
  -- `s.casefold()`, `s.strip()`, `s.rstrip()`, `s.split()`
  pub casefold : String → String
  -- `s.lower()`, `s.isdigit()`, and `int(s)` (none: ValueError)
  pub lower : String → String
  pub is_digit : String → Bool
  pub int_of : String → Option ℤ
  -- `str(n)` of an `int`, `str(x)` of a `float`
  pub int_text : ℤ → String
  pub float_text : Real → String
  -- `datetime.fromisoformat(s)` in UTC, as microseconds (none: ValueError)
  pub from_iso : String → Option ℕ
  pub strip : String → String
  pub rstrip : String → String
  pub split : String → List String
  -- `s.translate(table)` with the table of `_LETTER_EQUIVALENTS`
  pub translate_letters : String → String
  -- `re.search(pattern, s)` finds a match; `re.sub(pattern, replacement, s)`
  pub search : String → String → Bool
  pub sub : String → String → String → String
  -- `re.sub(pattern, f, s)`, where `f` is given the first group
  pub sub_with : String → (String → String) → String → String
  -- the first twelve hexadecimal digits of the SHA-256 of a text
  pub short_digest : String → String
