-- ===== src/Matching/Sample.antt =====
-- A library and targets to try the matching engine on.
use emule_indexer.Common.{
  ℕ, suc, ◌-◌, ◌*◌, ◌/◌, Bool, false, ◌&&◌, ◌||◌, Option, some, leb, ◌==◌, if◌then◌else◌, map,
  length, any, range_from, take, drop,
}
use emule_indexer.Common.Text.{Str, codes, str_eq}
use emule_indexer.Matching.Library.{Library}
use emule_indexer.Matching.Models.{TargetSegment}

-- Percentages for floats, ASCII for Unicode, and a search for the pattern itself for RE2.
abbrev upper_char : ℕ → ℕ
upper_char c = if leb 97 c && leb c 122 then c - 32 else c

abbrev is_alnum : ℕ → Bool
is_alnum c = (leb 97 c && leb c 122) || ((leb 65 c && leb c 90) || (leb 48 c && leb c 57))

abbrev holds : Str → Str → Bool
holds re s =
    any (λ start. str_eq (take (length re) (drop start s)) re) (range_from 0 (suc (length s)))

abbrev pub ascii_with : (Str → Option Str) → Library
ascii_with compile = record {
  Float = ℕ;
  float_le = leb;
  quotient = λ a b. a * 100 / b;
  float_zero = 0;
  nfkd = λ s. s;
  combining = λ c. false;
  casefold = λ s. s;
  upper = map upper_char;
  isalnum = is_alnum;
  isspace = λ c. c == 0x20;
  Regex = Str;
  compile = compile;
  search = holds;
  escape = λ s. s;
  fuzz_ratio = λ a b. if str_eq a b then 100 else 0;
}

abbrev pub ascii : Library
ascii = ascii_with some

abbrev pub segment_of : Bool → Str → TargetSegment
segment_of sole name = record {
  season = 1;
  seasonal_number = 2;
  absolute_number = 2;
  segment = name;
  title = codes "keroro";
  status = codes "wanted";
  sole_segment = sole;
}

abbrev pub segment : Str → TargetSegment
segment = segment_of false
