-- ===== src/Matching/Interpolation.antt =====
-- interpolation.py: `_PLACEHOLDER.sub(replace, pattern)`. The pattern `\{name\}` is read by a
-- machine with one state for the text outside and one for the name after a brace.
use emule_indexer.Common.{
  ℕ, Bool, false, ◌&&◌, ◌||◌, Option, none, some, [], ◌∷◌, ◌++◌, leb, ◌==◌, if◌then◌else◌, Result,
  ok, err, ◌>>=◌,
}
use emule_indexer.Common.Text.{Str, codes, str_eq, decimal}
use emule_indexer.Matching.Library.{Library}
use emule_indexer.Matching.Models.{TargetSegment}

-- `InterpolationError`, `re2.error`, the `KeyError` of a dictionary, and a recursion that does
-- not end (Python's `RecursionError`).
pub data MatchError : Type 0 where
  interpolation_error regex_error key_error recursion_error : MatchError

abbrev is_letter : ℕ → Bool
is_letter c = (leb 0x61 c && leb c 0x7a) || ((leb 0x41 c && leb c 0x5a) || c == 0x5f)

abbrev is_digit : ℕ → Bool
is_digit c = leb 0x30 c && leb c 0x39

-- May `c` stand in a name after `name`?
abbrev pub continues : Str → ℕ → Bool
continues [] c = is_letter c
continues (d ∷ name) c = is_letter c || is_digit c

-- `none` is outside; `some name` has read a brace and `name`.
abbrev pub Mode : Type 0
Mode = Option Str

abbrev pub ends_name : Str → ℕ → Bool
ends_name [] c = false
ends_name (d ∷ name) c = c == 0x7d

module _ (lib : Library) (target : TargetSegment) where
  -- the function `replace`, from the name of the group
  unfoldable pub replace : Str → Result MatchError Str
  replace name =
      if str_eq name (codes "season")
      then ok (lib.escape (decimal target.season))
      else if str_eq name (codes "seasonal_number")
      then ok (lib.escape (decimal target.seasonal_number))
      else if str_eq name (codes "absolute_number")
      then ok (lib.escape (decimal target.absolute_number))
      else if str_eq name (codes "segment")
      then ok (lib.escape (lib.upper target.segment))
      else if str_eq name (codes "title")
      then ok (lib.escape target.title)
      else if str_eq name (codes "mono_gate")
      then ok (if target.sole_segment then [] else codes "[^\\s\\S]")
      else err interpolation_error

  abbrev outside : ℕ → Str × Mode
  outside c = if c == 0x7b then ([], some []) else (c ∷ [], none)

  -- What one more character emits, and the mode behind it.
  unfoldable pub scan : Mode → ℕ → Result MatchError (Str × Mode)
  unfolding replace
  scan none c = ok (outside c)
  scan (some name) c =
      if ends_name name c
      then (do text ← replace name; ok (text, none))
      else if continues name c
      then ok ([], some (name ++ (c ∷ [])))
      else ok ((0x7b ∷ name) ++ (outside c).0, (outside c).1)

  unfoldable pub interpolate_from : Mode → Str → Result MatchError Str
  unfolding scan
  interpolate_from none [] = ok []
  interpolate_from (some name) [] = ok (0x7b ∷ name)
  interpolate_from mode (c ∷ s) = do
    step ← scan mode c
    rest ← interpolate_from step.1 s
    ok (step.0 ++ rest)

  unfoldable pub interpolate : Str → Result MatchError Str
  unfolding interpolate_from
  interpolate pattern = interpolate_from none pattern
