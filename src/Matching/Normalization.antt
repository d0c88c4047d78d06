-- ===== src/Matching/Normalization.antt =====
-- normalization.py
use emule_indexer.Common.{ℕ, Bool, not, List, [], ◌∷◌, ◌++◌, ◌==◌, if◌then◌else◌, map}
use emule_indexer.Common.Text.{Str, codes}
use emule_indexer.Matching.Library.{Library}

-- Python's `s.replace(c, r)` for one character `c`.
pub replace_char : ℕ → Str → Str → Str
replace_char c r [] = []
replace_char c r (d ∷ s) = (if d == c then r else d ∷ []) ++ replace_char c r s

pub keep : (ℕ → Bool) → Str → Str
keep p [] = []
keep p (c ∷ s) = let rest = keep p s in if p c then c ∷ rest else rest

-- Python's `" ".join(words)`.
unfoldable pub join_words : List Str → Str
join_words [] = []
join_words (w ∷ []) = w
join_words (w ∷ v ∷ vs) = w ++ (0x20 ∷ join_words (v ∷ vs))

abbrev pub push_word : Str → List Str → List Str
push_word [] words = words
push_word (c ∷ w) words = (c ∷ w) ∷ words

module _ (lib : Library) where
  -- The word that begins the text, if any, and the words behind it.
  split_run : Str → Str × List Str
  split_run [] = ([], [])
  split_run (c ∷ s) =
      let (w, words) = split_run s in
      if lib.isspace c then ([], push_word w words) else (c ∷ w, words)

  -- Python's `s.split()`: the longest runs with no white space in them.
  unfoldable pub split : Str → List Str
  unfolding split_run
  split s = push_word (split_run s).0 (split_run s).1

  -- `_common_fold`, with `_LIGATURES` in their order; `fold` is this.
  unfoldable pub fold : Str → Str
  unfolding replace_char keep
  fold value = replace_char 0xe6 (codes "ae") (
      replace_char 0x153 (codes "oe")
        (lib.casefold (keep (λ c. not (lib.combining c)) (lib.nfkd value))))

  -- What is neither a letter nor a digit becomes a space.
  clean : Str → Str
  clean = map (λ c. if lib.isalnum c then c else 0x20)

  unfoldable pub normalize : Str → Str
  unfolding clean
  normalize value = join_words (split (clean (fold value)))

  unfoldable pub tokenize : Str → List Str
  tokenize value = split (normalize value)
