-- ===== src/Matching/Library.antt =====
-- What the matching engine takes from outside the repository: Python's floats, the Unicode
-- character database, the RE2 engine and rapidfuzz.
use emule_indexer.Common.{ℕ, Bool, true, false, ◌≡◌, Option}
use emule_indexer.Common.Text.{Str}

pub record Library : Type 1 where
  -- floats: `a <= b`, the quotient of two integers, and a comparison with 0.0
  pub Float : Type 0
  pub float_le : Float → Float → Bool
  pub quotient : ℕ → ℕ → Float
  pub float_zero : Float
  -- `unicodedata.normalize("NFKD", s)`, `unicodedata.combining(c) != 0`, `s.casefold()`, `s.upper()`,
  -- `c.isalnum()`, `c.isspace()`
  pub nfkd : Str → Str
  pub combining : ℕ → Bool
  pub casefold : Str → Str
  pub upper : Str → Str
  pub isalnum : ℕ → Bool
  pub isspace : ℕ → Bool
  -- `re2.compile` (`none` is `re2.error`), `search(s) is not None`, `re2.escape`
  pub Regex : Type 0
  pub compile : Str → Option Regex
  pub search : Regex → Str → Bool
  pub escape : Str → Str
  -- rapidfuzz's `fuzz.ratio(a, b) / 100`
  pub fuzz_ratio : Str → Str → Float

-- Of the character database: the space is white space, and no letter or digit is.
pub record UnicodeLaws (lib : Library) : Type 0 where
  pub space : lib.isspace 0x20 ≡ true
  pub alnum : (c : ℕ) → lib.isalnum c ≡ true → lib.isspace c ≡ false
