-- ===== src/Matching/Matchers.antt =====
-- matchers.py and combinators.py: the matchers as data, and `matches` and `value` over them.
use emule_indexer.Common.{
  ℕ, ◌+◌, ◌-◌, Bool, true, false, not, ◌&&◌, ◌||◌, Option, none, some, List, [], ◌∷◌, length, take,
  drop, any, range_from, if◌then◌else◌,
}
use emule_indexer.Common.Text.{Str, codes, list_eq, str_eq}
use emule_indexer.Matching.Library.{Library}
use emule_indexer.Matching.Models.{FileCandidate}
use emule_indexer.Matching.Normalization.{fold, tokenize}

-- `ATTR_NAMES`: the constructor of `AttrBetweenMatcher` refuses any other name.
pub data Attr : Type 0 where
  size_mb duration_sec bitrate_kbps : Attr

-- One constructor for each class, over what its `__init__` stores.
mutual
  pub data Matcher (lib : Library) : Type 0 where
    -- the tokens of the phrase
    keyword : List Str → Matcher lib
    regex : lib.Regex → Matcher lib
    -- the significant tokens of the reference, `min` and `fuzz`
    coverage : List Str → lib.Float → lib.Float → Matcher lib
    attr_between : Attr → Option lib.Float → Option lib.Float → Matcher lib
    all_of : Matchers lib → Matcher lib
    any_of : Matchers lib → Matcher lib
    not_of : Matcher lib → Matcher lib

  pub data Matchers (lib : Library) : Type 0 where
    nil : Matchers lib
    cons : Matcher lib → Matchers lib → Matchers lib

-- `KeywordMatcher.matches`: a window of the phrase's width slides over the tokens.
unfoldable pub keyword_matches : List Str → List Str → Bool
keyword_matches [] haystack = true
keyword_matches (t ∷ ts) haystack =
    any (λ start. list_eq str_eq (take (length (t ∷ ts)) (drop start haystack)) (t ∷ ts))
      (range_from 0 (length haystack + 1 - length (t ∷ ts)))

abbrev pub stopwords_fr : List Str
stopwords_fr =
    codes "le"
    ∷ codes "la"
    ∷ codes "les"
    ∷ codes "l"
    ∷ codes "de"
    ∷ codes "des"
    ∷ codes "du"
    ∷ codes "d"
    ∷ codes "un"
    ∷ codes "une"
    ∷ codes "et"
    ∷ codes "a"
    ∷ codes "au"
    ∷ codes "aux"
    ∷ codes "en"
    ∷ []

-- `[t for t in tokens if t not in STOPWORDS_FR]`
unfoldable pub significant : List Str → List Str
significant [] = []
significant (t ∷ ts) =
    let rest = significant ts in if any (str_eq t) stopwords_fr then rest else t ∷ rest

module _ (lib : Library) where
  -- The number of reference tokens that some token of the candidate comes close to.
  unfoldable pub hits : lib.Float → List Str → List Str → ℕ
  hits fuzz [] candidate_tokens = 0
  hits fuzz (r ∷ rs) candidate_tokens =
      (if any (λ f. lib.float_le fuzz (lib.fuzz_ratio r f)) candidate_tokens then 1 else 0)
      + hits fuzz rs candidate_tokens

  -- `CoverageMatcher.value`
  unfoldable pub coverage_value : List Str → lib.Float → FileCandidate lib → lib.Float
  unfolding hits
  coverage_value [] fuzz candidate = lib.float_zero
  coverage_value (r ∷ rs) fuzz candidate =
      lib.quotient (hits fuzz (r ∷ rs) (tokenize lib candidate.filename)) (length (r ∷ rs))

  -- `getattr(candidate, attr)`
  abbrev pub attr_of : FileCandidate lib → Attr → Option lib.Float
  attr_of c size_mb = c.size_mb
  attr_of c duration_sec = c.duration_sec
  attr_of c bitrate_kbps = c.bitrate_kbps

  abbrev at_least : lib.Float → Option lib.Float → Bool
  at_least v none = true
  at_least v (some lo) = lib.float_le lo v

  abbrev at_most : lib.Float → Option lib.Float → Bool
  at_most v none = true
  at_most v (some hi) = lib.float_le v hi

  unfoldable pub between : Option lib.Float → Option lib.Float → Option lib.Float → Bool
  between none lo hi = false
  between (some v) lo hi = at_least v lo && at_most v hi

  unfoldable mutual
    pub matches : Matcher lib → FileCandidate lib → Bool
    matches (keyword tokens) c = keyword_matches tokens (tokenize lib c.filename)
    matches (regex re) c = lib.search re (fold lib c.filename)
    matches (coverage refs lo fuzz) c = lib.float_le lo (coverage_value refs fuzz c)
    matches (attr_between attr lo hi) c = between (attr_of c attr) lo hi
    matches (all_of ms) c = matches_all ms c
    matches (any_of ms) c = matches_any ms c
    matches (not_of m) c = not (matches m c)

    pub matches_all : Matchers lib → FileCandidate lib → Bool
    matches_all nil c = true
    matches_all (cons m ms) c = matches m c && matches_all ms c

    pub matches_any : Matchers lib → FileCandidate lib → Bool
    matches_any nil c = false
    matches_any (cons m ms) c = matches m c || matches_any ms c
