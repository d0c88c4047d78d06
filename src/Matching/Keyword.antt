-- ===== src/Matching/Keyword.antt =====
-- The sliding window finds exactly the contiguous occurrences.
use emule_indexer.Common.{
  ℕ, ◌+◌, ◌-◌, ◌≡◌, ◌↔◌, refl, true, List, [], ◌∷◌, ◌++◌, length, length-append, take, drop,
  any-range_from, any-range_from-inv, take-append-drop, drop-append, take-append, arith,
}
use emule_indexer.Common.Text.{Str, list_eq, list_eq_iff, str_eq, str_eq_iff}
use emule_indexer.Matching.Matchers.{keyword_matches}

-- `needle` stands in `haystack` as a block.
abbrev pub Occurs : List Str → List Str → Type 0
Occurs needle haystack =
    (before : List Str) × (after : List Str) × (haystack ≡ before ++ (needle ++ after))

window_iff : (xs ys : List Str) → (list_eq str_eq xs ys ≡ true) ↔ (xs ≡ ys)
window_iff = list_eq_iff str_eq str_eq_iff

window-split :
    (n start : ℕ) (xs w : List Str)
    → take n (drop start xs) ≡ w
    → xs ≡ take start xs ++ (w ++ drop n (drop start xs))
window-split n start xs w e =
    rw (← e, take-append-drop n (drop start xs), take-append-drop start xs)

window-at :
    (needle before after : List Str)
    → take (length needle) (drop (length before) (before ++ (needle ++ after))) ≡ needle
window-at needle before after = rw (drop-append before (needle ++ after), take-append needle after)

length-occurs :
    (needle before after : List Str)
    → length (before ++ (needle ++ after)) ≡ length before + (length needle + length after)
length-occurs needle before after =
    omega (arith, length-append before (needle ++ after), length-append needle after)

keyword_matches-occurs :
    (needle before after : List Str) → keyword_matches needle (before ++ (needle ++ after)) ≡ true
unfolding keyword_matches
keyword_matches-occurs [] before after = refl
keyword_matches-occurs (t ∷ ts) before after =
    let needle : List Str = t ∷ ts in
    let haystack : List Str = before ++ (needle ++ after) in
    any-range_from _ 0 (length haystack + 1 - length needle) (length before) (omega arith)
      (omega (arith, length-occurs needle before after))
      ((window_iff _ _).1 (window-at needle before after))

-- A keyword matches a name exactly if the tokens of its phrase stand in a row among the tokens of
-- the name.
pub keyword_matches_iff :
    (needle haystack : List Str) → (keyword_matches needle haystack ≡ true) ↔ Occurs needle haystack
unfolding keyword_matches
keyword_matches_iff [] haystack = (λ _. ([], haystack, refl), λ _. refl)
keyword_matches_iff (t ∷ ts) haystack = (
  λ h.
      let (start, _, bound, found) =
        any-range_from-inv _ 0 (length haystack + 1 - length (t ∷ ts)) h in
      let window = (window_iff (take (length (t ∷ ts)) (drop start haystack)) (t ∷ ts)).0 found in
      (
        take start haystack,
        drop (length (t ∷ ts)) (drop start haystack),
        window-split (length (t ∷ ts)) start haystack (t ∷ ts) window,
      ),
  λ (before, after, e). rw e (keyword_matches-occurs (t ∷ ts) before after),
)
